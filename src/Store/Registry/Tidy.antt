-- ===== src/Store/Registry/Tidy.antt =====
-- src/store.rs: what ties the handle cache to the running actors, and that `get` keeps it.
use text.Mathlib.TextEquality.{eq_iff}
use eventfold_es.Prelude.{
  ℕ, zero, suc, String, ◌≡◌, refl, sym, ap, ◌∙◌, inl, inr, ◌⊎◌, true, false, none, some, List, [],
  ◌∷◌, ◌++◌, ok, err, str_eq, length, Bool-cases, Option-cases, Result-cases,
}
use eventfold_es.Runtime.{Runtime, entry}
use eventfold_es.Map.{insert, entry-without_self, entry-without_other}
use eventfold_es.Aggregate.{Aggregate}
use eventfold_es.Event.{stream_uuid}
use eventfold_es.Io.{FilePath}
use eventfold_es.Actor.Ops.{EventStoreOps}
use eventfold_es.Actor.Execute.{Actor}
use eventfold_es.Actor.Lifecycle.{spawn_actor_with_store}
use eventfold_es.Actor.Handle.{Cell, Fleet, at, is_running, is_alive}
use eventfold_es.Store.Registry.{Registry, cached, evict, cell_of, spawn, cache_spawned, keep, get}

pub at-append_left {ℓ} :
    {B : Type ℓ} (n : ℕ) (l : List B) (x b : B) → at n l ≡ some b → at n (l ++ x ∷ []) ≡ some b
unfolding at
at-append_left n [] x b h = cc
at-append_left zero (y ∷ l) x b h = h
at-append_left (suc n) (y ∷ l) x b h = at-append_left n l x b h

pub at-append_last {ℓ} : {B : Type ℓ} (l : List B) (x : B) → at (length l) (l ++ x ∷ []) ≡ some x
unfolding at
at-append_last [] x = refl
at-append_last (y ∷ l) x = at-append_last l x

pub at-append_cases {ℓ} :
    {B : Type ℓ} (n : ℕ) (l : List B) (x b : B)
    → at n (l ++ x ∷ []) ≡ some b
    → (at n l ≡ some b) ⊎ ((n ≡ length l) × (x ≡ b))
unfolding at
at-append_cases zero [] x b h = inr (refl, cc)
at-append_cases (suc n) [] x b h = cc
at-append_cases zero (y ∷ l) x b h = inl h
at-append_cases (suc n) (y ∷ l) x b h = elim (at-append_cases n l x b h) [
  | inl e ↦ inl e
  | inr (e, f) ↦ inr (ap suc e, f)
]

module _ (X : Runtime) (A : Aggregate X) (S : EventStoreOps X) (base_dir : FilePath) where
  abbrev pub Names : String → Cell X A → Type 0
  Names id c =
      (c.context.instance_id ≡ id) × (c.context.stream_id ≡ stream_uuid X A.aggregate_type id)

  -- Every running actor is the cached one of its instance, so an instance has at most one; and an
  -- entry's handle is that of an actor of its instance, running or not.
  pub record IsTidy (r : Registry X A S) : Type 0 where
    pub running_cached :
        (handle : ℕ) (c : Cell X A)
        → at handle r.fleet.cells ≡ some c
        → is_running c.progress ≡ true
        → entry c.context.instance_id r.cache ≡ some handle
    pub names :
        (id : String) (handle : ℕ)
        → entry id r.cache ≡ some handle
        → (c : Cell X A) × (at handle r.fleet.cells ≡ some c) × Names id c

  -- No actor of an instance runs.
  abbrev pub IsIdle : String → Registry X A S → Type 0
  IsIdle id r =
      (handle : ℕ) (c : Cell X A)
      → at handle r.fleet.cells ≡ some c
      → is_running c.progress ≡ true
      → str_eq id c.context.instance_id ≡ false

  -- Without a live entry, no actor of the instance runs.
  pub cached-IsIdle :
      (id : String) (r : Registry X A S)
      → IsTidy r
      → cached X A S base_dir id r ≡ none
      → IsIdle id r
  unfolding cached is_alive
  cached-IsIdle id r h miss handle c e live = elim (Bool-cases (str_eq id c.context.instance_id)) [
    | inr q ↦ q
    | inl q ↦
        let same : id ≡ c.context.instance_id = (eq_iff id c.context.instance_id).0 q in
        let found : entry id r.cache ≡ some handle = rw same (h.running_cached handle c e live) in
        let alive : is_alive X A S handle r.fleet ≡ true = rw (e, is_alive) live in
        cc (rw (found, alive, cached) at miss)
  ]

  evict-IsTidy :
      (id : String) (r : Registry X A S)
      → IsIdle id r
      → IsTidy r
      → IsTidy (evict X A S base_dir id r)
  unfolding evict
  evict-IsTidy id r idle h = record {
    running_cached = λ handle c e live.
        entry-without_other id c.context.instance_id r.cache (idle handle c e live)
        ∙ h.running_cached handle c e live;
    names = λ q handle e. elim (Bool-cases (str_eq id q)) [
      | inl same ↦
          let gone = entry-without_self id r.cache in
          let here : id ≡ q = (eq_iff id q).0 same in cc (gone, rw (← here) at e)
      | inr other ↦ h.names q handle (sym (entry-without_other id q r.cache other) ∙ e)
    ];
  }

  IsTidy-cells :
      (r : Registry X A S) (f : Fleet X A S)
      → f.cells ≡ r.fleet.cells
      → IsTidy r
      → IsTidy (record r { fleet = f })
  IsTidy-cells r f same h = record {
    running_cached = λ handle c e live. h.running_cached handle c (rw same at e) live;
    names = λ id handle e. let (c, found, named) = h.names id handle e in (c, rw same found, named);
  }

  -- A new running actor under its instance's name.
  keep-IsTidy :
      (id : String) (r : Registry X A S) (a : Actor X A S) (f : Fleet X A S)
      → IsIdle id r
      → IsTidy r
      → f.cells ≡ r.fleet.cells ++ cell_of X A S base_dir id a ∷ []
      → IsTidy (record { cache = insert id (length r.fleet.cells) r.cache; fleet = f })
  unfolding insert entry cell_of
  keep-IsTidy id r a f idle h grown = record {
    running_cached = λ handle c e live.
        elim (at-append_cases handle r.fleet.cells (cell_of X A S base_dir id a) c
          (rw grown at e)) [
            | inl old ↦
                let other = idle handle c old live in
                rw (other, entry)
                  (entry-without_other id c.context.instance_id r.cache other
                    ∙ h.running_cached handle c old live)
            | inr (last, same) ↦
                let own : str_eq id c.context.instance_id ≡ true =
                  rw (← same) ((eq_iff id id).1 refl) in
                rw (own, entry) (ap some (sym last))
          ];
    names = λ q handle e. elim (Bool-cases (str_eq id q)) [
      | inl same ↦
          let here : id ≡ q = (eq_iff id q).0 same in
          let last : length r.fleet.cells ≡ handle = cc (rw (same, entry) at e) in
          (
            cell_of X A S base_dir id a,
            rw (grown, ← last) (at-append_last r.fleet.cells (cell_of X A S base_dir id a)),
            (here, ap (stream_uuid X A.aggregate_type) here),
          )
      | inr other ↦
          let old = sym (entry-without_other id q r.cache other) ∙ rw (other, entry) at e in
          let (c, found, named) = h.names q handle old in
          (
            c,
            rw grown (at-append_left handle r.fleet.cells (cell_of X A S base_dir id a) c found),
            named,
          )
    ];
  }

  pub spawn-cases :
      (id : String) (r : Registry X A S)
      → ((status : X.Status) × (f : Fleet X A S) × (spawn X A S base_dir id r
            ≡ (err status, record r { fleet = f }))
          × (f.cells ≡ r.fleet.cells))
        ⊎ ((a : Actor X A S) × (f : Fleet X A S) × (spawn X A S base_dir id r
              ≡ (ok (length r.fleet.cells), record r { fleet = f }))
            × (f.cells ≡ r.fleet.cells ++ cell_of X A S base_dir id a ∷ []))
  unfolding spawn
  spawn-cases id r =
      let ran = spawn_actor_with_store X A S id base_dir r.fleet.world r.fleet.disk in
      elim (Result-cases ran.0.0) [
        | inl (a, q) ↦ inr (
          a,
          record {
            cells = r.fleet.cells ++ cell_of X A S base_dir id a ∷ [];
            world = ran.0.1;
            disk = ran.1;
          },
          rw (q, spawn),
          refl,
        )
        | inr (status, q) ↦
            inl (status, record r.fleet { world = ran.0.1; disk = ran.1 }, rw (q, spawn), refl)
      ]

  -- `get` keeps the cache and the actors of a process tied: an actor that runs is the one cached
  -- for its instance, so no instance has two, and each entry leads to an actor of its instance.
  pub get-IsTidy :
      (id : String) (r : Registry X A S) → IsTidy r → IsTidy (get X A S base_dir id r).1
  unfolding get cache_spawned keep evict
  get-IsTidy id r h = elim (Option-cases (cached X A S base_dir id r)) [
    | inr (handle, q) ↦ rw (q, get) h
    | inl q ↦
        let idle = cached-IsIdle id r h q in
        let tidy = evict-IsTidy id r idle h in
        elim (spawn-cases id (evict X A S base_dir id r)) [
          | inl (status, f, s, same) ↦ rw (q, s, get) (IsTidy-cells _ f same tidy)
          | inr (a, f, s, grown) ↦ rw (q, s, get) (keep-IsTidy id _ a f idle tidy grown)
        ]
  ]
