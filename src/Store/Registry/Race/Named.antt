-- ===== src/Store/Registry/Race/Named.antt =====
-- src/store.rs: the handles that calls of `get` return, however they take turns.
use text.Mathlib.TextEquality.{eq_iff}
use eventfold_es.Prelude.{
  ℕ, String, ◌≡◌, refl, sym, ap, ◌∙◌, inl, inr, some, List, [], ◌∷◌, ok, err, str_eq, All,
  Bool-cases, Option-cases,
}
use eventfold_es.Runtime.{Runtime, entry}
use eventfold_es.Map.{insert, entry-without_self, entry-without_other}
use eventfold_es.Aggregate.{Aggregate}
use eventfold_es.Io.{FilePath}
use eventfold_es.Actor.Ops.{EventStoreOps}
use eventfold_es.Actor.Lifecycle.{Context, Received}
use eventfold_es.Actor.Handle.{Cell, Fleet, at, receive, is_alive}
use eventfold_es.Actor.Fleet.{All-put, All-at, All-map}
use eventfold_es.Store.Registry.{Registry, cached, evict, cell_of, keep}
use eventfold_es.Store.Registry.Tidy.{Names, spawn-cases, at-append_last, at-append_left}
use eventfold_es.Store.Registry.Get.{receive-context}
use eventfold_es.Store.Registry.Race.{
  Phase, looking, evicting, spawning, caching, done, Caller, Turn, advance, deliver, State, proceed,
  turn, play, spawned, looked,
}

module _ (X : Runtime) (A : Aggregate X) (S : EventStoreOps X) (base_dir : FilePath) where
  -- A handle leads to an actor, running or not, that was spawned for an instance.
  abbrev pub Leads : String → ℕ → Fleet X A S → Type 0
  Leads id handle f = (c : Cell X A) × (at handle f.cells ≡ some c) × Names X A S base_dir id c

  -- Every entry of the cache leads to an actor of its instance.
  abbrev pub IsNamed : Registry X A S → Type 0
  IsNamed r = (id : String) (handle : ℕ) → entry id r.cache ≡ some handle → Leads id handle r.fleet

  -- So does the handle that a call has spawned or returned.
  abbrev pub HoldsNamed : Fleet X A S → Caller X → Type 0
  HoldsNamed f c = elim c.phase [
    | looking ↦ Unit {0}
    | evicting ↦ Unit {0}
    | spawning ↦ Unit {0}
    | caching handle ↦ Leads c.id handle f
    | done result ↦ elim result [ ok handle ↦ Leads c.id handle f | err _ ↦ Unit {0} ]
  ]

  -- Later actors lead wherever earlier ones did.
  abbrev pub Keeps : Fleet X A S → Fleet X A S → Type 0
  Keeps f g = (id : String) (handle : ℕ) → Leads id handle f → Leads id handle g

  HoldsNamed-Keeps :
      (f g : Fleet X A S) → Keeps f g → (c : Caller X) → HoldsNamed f c → HoldsNamed g c
  HoldsNamed-Keeps f g k c h = by_phase c.id c.phase h
    where
      by_phase :
          (id : String) (phase : Phase X)
          → HoldsNamed f (record { id = id; phase = phase })
          → HoldsNamed g (record { id = id; phase = phase })
      by_phase id looking h = tt
      by_phase id evicting h = tt
      by_phase id spawning h = tt
      by_phase id (caching handle) h = k id handle h
      by_phase id (done (ok handle)) h = k id handle h
      by_phase id (done (err _)) h = tt

  IsNamed-evict :
      (id : String) (r : Registry X A S) → IsNamed r → IsNamed (evict X A S base_dir id r)
  unfolding evict
  IsNamed-evict id r h q handle e = elim (Bool-cases (str_eq id q)) [
    | inl same ↦
        let gone = entry-without_self id r.cache in
        let here : id ≡ q = (eq_iff id q).0 same in cc (gone, rw (← here) at e)
    | inr other ↦ h q handle (sym (entry-without_other id q r.cache other) ∙ e)
  ]

  IsNamed-keep :
      (id : String) (handle : ℕ) (r : Registry X A S)
      → Leads id handle r.fleet
      → IsNamed r
      → IsNamed (keep X A S base_dir id handle r)
  unfolding keep insert entry
  IsNamed-keep id handle r leads h q found e = elim (Bool-cases (str_eq id q)) [
    | inl same ↦
        let here : id ≡ q = (eq_iff id q).0 same in
        let own : handle ≡ found = cc (rw (same, entry) at e) in rw (← here, ← own) leads
    | inr other ↦ h q found (sym (entry-without_other id q r.cache other) ∙ rw (other, entry) at e)
  ]

  -- A hit of the fast path is an entry.
  cached-entry :
      (id : String) (r : Registry X A S) (hit : ℕ)
      → cached X A S base_dir id r ≡ some hit
      → entry id r.cache ≡ some hit
  unfolding cached
  cached-entry id r hit q = elim (Option-cases (entry id r.cache)) [
    | inl miss ↦ cc (rw (miss, cached) at q)
    | inr (found, e) ↦ elim (Bool-cases (is_alive X A S found r.fleet)) [
      | inr dead ↦ cc (rw (e, dead, cached) at q)
      | inl alive ↦ let same : found ≡ hit = cc (rw (e, alive, cached) at q) in rw (← same) e
    ]
  ]

  IsNamed-Keeps :
      (r : Registry X A S) (f : Fleet X A S)
      → Keeps r.fleet f
      → IsNamed r
      → IsNamed (record r { fleet = f })
  IsNamed-Keeps r f k h id handle e = k id handle (h id handle e)

  receive-Keeps :
      (handle : ℕ) (m : Received X A) (f : Fleet X A S) → Keeps f (receive X A S handle m f).1
  receive-Keeps handle m f id k (c, e, named) =
      let (c', e', same) = receive-context X A S handle k m f c e in
      (
        c',
        e',
        (
          ap (λ (x : Context X). x.instance_id) same ∙ named.0,
          ap (λ (x : Context X). x.stream_id) same ∙ named.1,
        ),
      )

  -- What a turn of a call has to keep.
  pub record HasKept (id : String) (phase : Phase X) (r s : Registry X A S) : Type 0 where
    pub named : IsNamed s
    pub holds : HoldsNamed s.fleet (record { id = id; phase = phase })
    pub keeps : Keeps r.fleet s.fleet

  same-Keeps : (f g : Fleet X A S) → g.cells ≡ f.cells → Keeps f g
  same-Keeps f g same id handle (c, e, named) = (c, rw same e, named)

  proceed-spawning :
      (id : String) (r : Registry X A S)
      → IsNamed r
      → HasKept id
          (proceed X A S base_dir id spawning r).0
          r
          (proceed X A S base_dir id spawning r).1
  unfolding proceed spawned cell_of
  proceed-spawning id r h = elim (spawn-cases X A S base_dir id r) [
    | inl (status, f, s, same) ↦
        let k = same-Keeps r.fleet f same in
        rw (s, proceed) (record { named = IsNamed-Keeps r f k h; holds = tt; keeps = k })
    | inr (a, f, s, grown) ↦
        let cell = cell_of X A S base_dir id a in
        let k : Keeps r.fleet f = λ q handle (c, e, named).
          (c, rw grown (at-append_left handle r.fleet.cells cell c e), named) in
        rw (s, proceed)
          (record {
            named = IsNamed-Keeps r f k h;
            holds = (cell, rw grown (at-append_last r.fleet.cells cell), (refl, refl));
            keeps = k;
          })
  ]

  proceed-HasKept :
      (id : String) (phase : Phase X) (r : Registry X A S)
      → IsNamed r
      → HoldsNamed r.fleet (record { id = id; phase = phase })
      → HasKept id (proceed X A S base_dir id phase r).0 r (proceed X A S base_dir id phase r).1
  unfolding proceed looked keep evict
  proceed-HasKept id looking r h own = elim (Option-cases (cached X A S base_dir id r)) [
    | inl q ↦ rw (q, proceed) (record { named = h; holds = tt; keeps = λ _ _ l. l })
    | inr (hit, q) ↦
        rw (q, proceed)
          (record { named = h; holds = h id hit (cached-entry id r hit q); keeps = λ _ _ l. l })
  ]
  proceed-HasKept id evicting r h own = record {
    named = IsNamed-evict id r h;
    holds = tt;
    keeps = λ _ _ l. l;
  }
  proceed-HasKept id spawning r h own = proceed-spawning id r h
  proceed-HasKept id (caching handle) r h own = record {
    named = IsNamed-keep id handle r own h;
    holds = own;
    keeps = λ _ _ l. l;
  }
  proceed-HasKept id (done result) r h own = record { named = h; holds = own; keeps = λ _ _ l. l }

  -- Every entry, and every handle that a call holds, leads to an actor of the right instance.
  pub record IsSound (s : State X A S) : Type 0 where
    pub named : IsNamed s.registry
    pub holds : All (HoldsNamed s.registry.fleet) s.callers

  turn-IsSound : (t : Turn X A) (s : State X A S) → IsSound s → IsSound (turn X A S base_dir t s)
  unfolding turn
  turn-IsSound (advance n) s h = elim (Option-cases (at n s.callers)) [
    | inl q ↦ rw (q, turn) h
    | inr (c, q) ↦
        let f = s.registry.fleet in
        let g = (proceed X A S base_dir c.id c.phase s.registry).1.fleet in
        let own = All-at (HoldsNamed f) n s.callers c h.holds q in
        let kept = proceed-HasKept c.id c.phase s.registry h.named own in
        let others =
          All-map (HoldsNamed f) (HoldsNamed g) s.callers (HoldsNamed-Keeps f g kept.keeps)
            h.holds in
        rw (q, turn)
          (record {
            named = kept.named;
            holds = All-put (HoldsNamed g) n _ s.callers kept.holds others;
          })
  ]
  turn-IsSound (deliver handle m) s h =
      let f = s.registry.fleet in
      let k = receive-Keeps handle m f in
      let g = (receive X A S handle m f).1 in
      record {
        named = IsNamed-Keeps s.registry g k h.named;
        holds = All-map (HoldsNamed f) (HoldsNamed g) s.callers (HoldsNamed-Keeps f g k) h.holds;
      }

  -- Whatever turns the calls of `get` and the actors take, a call that returns a handle returns that
  -- of an actor that was spawned for the instance it was asked for, and serves that stream, if the
  -- cache's entries led to such actors at the start.
  pub play-IsSound :
      (ts : List (Turn X A)) (s : State X A S) → IsSound s → IsSound (play X A S base_dir ts s)
  unfolding play
  play-IsSound [] s h = h
  play-IsSound (t ∷ ts) s h = play-IsSound ts (turn X A S base_dir t s) (turn-IsSound t s h)
