-- ===== src/Store/Registry/Get.antt =====
-- src/store.rs: the handle that `get` returns, and `get` over coherent actors.
use eventfold_es.Prelude.{
  ℕ, zero, suc, String, ◌≡◌, refl, sym, ap, ◌∙◌, inl, inr, true, false, Option, some, List, [], ◌∷◌,
  ◌++◌, Result, ok, err, length, All, Bool-cases, Option-cases, Result-cases,
}
use eventfold_es.Runtime.{Runtime, entry}
use eventfold_es.Aggregate.{Aggregate}
use eventfold_es.Event.{stream_uuid}
use eventfold_es.Io.{FilePath}
use eventfold_es.Snapshot.{Snapshot, load_snapshot}
use eventfold_es.Actor.Ops.{EventStoreOps}
use eventfold_es.Actor.Execute.{Actor, catch_up, u64_max}
use eventfold_es.Actor.Lifecycle.{Received, start_from, spawn_actor_with_store, catch_up_from}
use eventfold_es.Actor.Coherence.{IsCoherent}
use eventfold_es.Actor.Worlds.{spawn-follows}
use eventfold_es.Actor.Spawn.{start, IsCurrent-IsCoherent, catch_up_from-IsCurrent}
use eventfold_es.Actor.Handle.{Cell, Fleet, at, put, is_running, receive, asleep, is_alive}
use eventfold_es.Actor.Fleet.{
  IsStore, Extends-IsFollowed, IsCoherentCell, AreCoherent, AreCoherent-Extends,
}
use eventfold_es.Store.Registry.{
  Registry, cached, evict, cell_of, spawn, cache_spawned, keep, get, meanwhile,
}
use eventfold_es.Store.Registry.Tidy.{IsTidy, Names, spawn-cases, at-append_last}

pub All-append_one {ℓ κ} :
    {B : Type ℓ} (P : B → Type κ) (bs : List B) (b : B) → All P bs → P b → All P (bs ++ b ∷ [])
All-append_one P [] b h p = (p, tt)
All-append_one P (x ∷ bs) b h p = (h.0, All-append_one P bs b h.1 p)

-- Writing a cell of the same context keeps the context of every cell.
at-put_context :
    {X : Runtime} {A : Aggregate X} (n k : ℕ) (l : List (Cell X A)) (x b c : Cell X A)
    → at n l ≡ some b
    → x.context ≡ b.context
    → at k l ≡ some c
    → (c' : Cell X A) × (at k (put n x l) ≡ some c') × (c'.context ≡ c.context)
unfolding at put
at-put_context n k [] x b c f e g = cc
at-put_context zero zero (y ∷ l) x b c f e g = (x, refl, cc)
at-put_context zero (suc k) (y ∷ l) x b c f e g = (c, g, refl)
at-put_context (suc n) zero (y ∷ l) x b c f e g = (c, g, refl)
at-put_context (suc n) (suc k) (y ∷ l) x b c f e g = at-put_context n k l x b c f e g

module _ (X : Runtime) (A : Aggregate X) (S : EventStoreOps X) where
  pub receive-context :
      (handle k : ℕ) (m : Received X A) (f : Fleet X A S) (c : Cell X A)
      → at k f.cells ≡ some c
      → (c' : Cell X A) × (at k (receive X A S handle m f).1.cells ≡ some c')
        × (c'.context ≡ c.context)
  unfolding receive asleep
  receive-context handle k m f c e = elim (Option-cases (at handle f.cells)) [
    | inl q ↦ rw (q, receive) (c, e, refl)
    | inr (b, q) ↦ elim (Bool-cases (is_running b.progress)) [
      | inr p ↦ rw (q, p, receive) (c, e, refl)
      | inl p ↦ rw (q, p, receive) (at-put_context handle k f.cells _ b c q refl e)
    ]
  ]

  module _ (base_dir : FilePath) where
    pub meanwhile-context :
        (between : List (ℕ × Received X A)) (k : ℕ) (r : Registry X A S) (c : Cell X A)
        → at k r.fleet.cells ≡ some c
        → (c' : Cell X A) × (at k (meanwhile X A S base_dir between r).fleet.cells ≡ some c')
          × (c'.context ≡ c.context)
    unfolding meanwhile
    meanwhile-context [] k r c e = (c, e, refl)
    meanwhile-context ((handle, m) ∷ rest) k r c e =
        let (c1, e1, same1) = receive-context handle k m r.fleet c e in
        let (c2, e2, same2) =
          meanwhile-context rest k (record r { fleet = (receive X A S handle m r.fleet).1 }) c1
            e1 in
        (c2, e2, same2 ∙ same1)

    -- A handle that `get` returns is that of an actor that runs and serves the instance's stream.
    pub get-Names :
        (id : String) (r : Registry X A S) (handle : ℕ)
        → IsTidy X A S base_dir r
        → (get X A S base_dir id r).0 ≡ ok handle
        → (c : Cell X A) × (at handle (get X A S base_dir id r).1.fleet.cells ≡ some c)
          × (is_running c.progress ≡ true)
          × Names X A S base_dir id c
    unfolding get cache_spawned keep evict cached is_alive cell_of is_running
    get-Names id r handle h got = elim (Option-cases (cached X A S base_dir id r)) [
      | inl q ↦ elim (spawn-cases X A S base_dir id (evict X A S base_dir id r)) [
        | inl (status, f, s, same) ↦ cc (rw (q, s, get) at got)
        | inr (a, f, s, grown) ↦
            let last : length r.fleet.cells ≡ handle = cc (rw (q, s, get) at got) in
            rw (q, s, get)
              (
                cell_of X A S base_dir id a,
                rw (grown, ← last) (at-append_last r.fleet.cells (cell_of X A S base_dir id a)),
                refl,
                (refl, refl),
              )
      ]
      | inr (hit, q) ↦ elim (Option-cases (entry id r.cache)) [
        | inl miss ↦ cc (rw (miss, cached) at q)
        | inr (found, e) ↦
            let (c, here, named) = h.names id found e in
            elim (Bool-cases (is_running c.progress)) [
              | inr dead ↦
                  let gone : is_alive X A S found r.fleet ≡ false = rw (here, is_alive) dead in
                  cc (rw (e, gone, cached) at q)
              | inl live ↦
                  let alive : is_alive X A S found r.fleet ≡ true = rw (here, is_alive) live in
                  let same : found ≡ hit = cc (rw (e, alive, cached) at q) in
                  let out : hit ≡ handle = cc (rw (q, get) at got) in
                  rw (q, get) (c, rw (← out, ← same) here, live, named)
            ]
      ]
    ]

    cache_spawned-fleet :
        (id : String) (p : Result ℕ X.Status × Registry X A S)
        → (cache_spawned X A S base_dir id p).1.fleet ≡ p.1.fleet
    unfolding cache_spawned keep
    cache_spawned-fleet id (ok handle, r) = refl
    cache_spawned-fleet id (err status, r) = refl

    module _ (V : IsStore X S) where
      -- The snapshot that the disk holds for an instance, if it can be read, is the replay of a
      -- prefix of the instance's log; so it is when there is none.
      abbrev pub IsLoadable : String → Fleet X A S → Type 0
      IsLoadable id f =
          let L = V.one (stream_uuid X A.aggregate_type id) in
          (snapshot : Option (Snapshot X A))
          → (load_snapshot X A base_dir id f.disk).0 ≡ ok snapshot
          → IsCoherent X A S L (start X A S L snapshot f.world)

      catch_up_from-store :
          (stream : X.Uuid) (snapshot : Option (Snapshot X A)) (w : S.W) (a : Actor X A S)
          → (catch_up_from X A S stream snapshot w).0 ≡ ok a
          → a.store ≡ (catch_up_from X A S stream snapshot w).1
      unfolding catch_up_from
      catch_up_from-store stream snapshot w a h =
          let from = (start_from X A S snapshot).2 in
          elim (Result-cases (S.read_stream stream from u64_max w).0) [
            | inl (es, e) ↦
                let (s, v) =
                  catch_up X A (start_from X A S snapshot).0 (start_from X A S snapshot).1 es in
                let made : Actor X A S = record {
                  store = (S.read_stream stream from u64_max w).1;
                  state = s;
                  stream_version = v;
                } in
                let same : a ≡ made = sym (cc (rw (e, catch_up_from) at h)) in
                rw (e, catch_up_from) (ap (λ (x : Actor X A S). x.store) same)
            | inr (st, e) ↦ cc (rw (e, catch_up_from) at h)
          ]

      spawned-IsCoherent :
          (id : String) (f : Fleet X A S) (a : Actor X A S)
          → IsLoadable id f
          → (spawn_actor_with_store X A S id base_dir f.world f.disk).0.0 ≡ ok a
          → IsCoherentCell X A S V
              (spawn_actor_with_store X A S id base_dir f.world f.disk).0.1
              (cell_of X A S base_dir id a)
      unfolding spawn_actor_with_store cell_of
      spawned-IsCoherent id f a loads h =
          let stream = stream_uuid X A.aggregate_type id in
          elim (Result-cases (load_snapshot X A base_dir id f.disk).0) [
            | inr (e, q) ↦ cc (rw (q, spawn_actor_with_store) at h)
            | inl (snapshot, q) ↦
                let caught = rw (q, spawn_actor_with_store) at h in
                let current =
                  catch_up_from-IsCurrent X A S (V.one stream) snapshot f.world a (loads snapshot q)
                    caught in
                let coherent = IsCurrent-IsCoherent X A S (V.one stream) f.world a current in
                rw (q, spawn_actor_with_store)
                  (rw (← catch_up_from-store stream snapshot f.world a caught) coherent)
          ]

      pub spawn-AreCoherent :
          (id : String) (r : Registry X A S)
          → IsLoadable id r.fleet
          → AreCoherent X A S V r.fleet
          → AreCoherent X A S V (spawn X A S base_dir id r).1.fleet
      unfolding spawn
      spawn-AreCoherent id r loads h =
          let w = r.fleet.world in
          let ran = spawn_actor_with_store X A S id base_dir w r.fleet.disk in
          let grown = spawn-follows X A S (Extends-IsFollowed X S V) id base_dir w r.fleet.disk in
          let kept = AreCoherent-Extends X A S V r.fleet.cells w ran.0.1 grown h in
          elim (Result-cases ran.0.0) [
            | inl (a, q) ↦
                rw (q, spawn)
                  (All-append_one (IsCoherentCell X A S V ran.0.1) r.fleet.cells
                    (cell_of X A S base_dir id a) kept (spawned-IsCoherent id r.fleet a loads q))
            | inr (status, q) ↦ rw (q, spawn) kept
          ]

      -- If the snapshot on disk can be trusted, `get` keeps every actor coherent with its stream's
      -- log, and the one that it may spawn is so too.
      pub get-AreCoherent :
          (id : String) (r : Registry X A S)
          → IsLoadable id r.fleet
          → AreCoherent X A S V r.fleet
          → AreCoherent X A S V (get X A S base_dir id r).1.fleet
      unfolding get evict
      get-AreCoherent id r loads h = elim (Option-cases (cached X A S base_dir id r)) [
        | inr (hit, q) ↦ rw (q, get) h
        | inl q ↦
            rw (q, get)
              (rw (cache_spawned-fleet id (spawn X A S base_dir id (evict X A S base_dir id r)))
                (spawn-AreCoherent id (evict X A S base_dir id r) loads h))
      ]
