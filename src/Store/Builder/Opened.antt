-- ===== src/Store/Builder/Opened.antt =====
-- src/store.rs: the projections of a store that `open` has made.
use eventfold_es.Prelude.{
  String, ◌≡◌, sym, ap, ◌∙◌, true, none, some, List, [], ◌∷◌, ◌++◌, ok, inl, inr, All, Result-cases,
}
use eventfold_es.Runtime.{Runtime, entry}
use eventfold_es.Event.{RecordedEvent}
use eventfold_es.Client.{Grpc}
use eventfold_es.Cursor.{Item, consume}
use eventfold_es.GlobalLog.{IsGlobalLog, is_caught_up}
use eventfold_es.Io.{join, Disk, read}
use eventfold_es.Projection
use eventfold_es.Projection.{
  Projection, ProjectionCheckpoint, ProjectionRunner, default_checkpoint, load_checkpoint,
  save_checkpoint, checkpoint_path,
}
use eventfold_es.Projection.Stream.{projection_cursor}
use eventfold_es.Projection.Exact.{IsAt}
use eventfold_es.Store.Views.{AnyOf, erase, projection}
use eventfold_es.Store.Views.Rebuild.{saved_as, projection-rebuild}
use eventfold_es.Store.Builder.Registered.{new-dir, IsReader, init_projections-last, boxed-made}
use eventfold_es.Store.Builder.{
  Transport, ProjectionFactory, AggregateStoreBuilder, AggregateStore, projection_factory,
  init_projections, init_process_managers, connect_with, unwrap_or, Opening, opened, open_store,
}

module _ (X : Runtime) (G : Grpc X) (Any Actors : Type 0) where
  module _ (T : Transport X G) where
    opened-injective :
        (s t : AggregateStore X G Any Actors)
        → Path (Opening X G Any Actors T) (opened s) (opened t)
        → s ≡ t
    opened-injective s t h = cc

    opened-projections :
        (b : AggregateStoreBuilder X G Any Actors) (w : G.W) (d : Disk X.Bytes)
        (store : AggregateStore X G Any Actors)
        → (open_store X G Any Actors T b w d).0.0 ≡ opened store
        → (init_projections X G Any Actors b.projection_factories store.base_dir [] d).0
          ≡ ok store.projections
    unfolding open_store
    opened-projections b w d store h =
        let dir = unwrap_or (join T.temp_dir "eventfold-es") b.base_dir in
        let connected =
          connect_with X G Any Actors T b.auth_token (unwrap_or "http://127.0.0.1:2113" b.endpoint)
            w in
        let projections = init_projections X G Any Actors b.projection_factories dir [] d in
        let managers =
          init_process_managers X G Any Actors b.process_manager_factories dir [] projections.1 in
        elim (Result-cases connected.0) [
          | inr (e, p) ↦ cc (rw (p, open_store) at h)
          | inl (_, p) ↦ elim (Result-cases projections.0) [
            | inr (e, q) ↦ cc (rw (p, q, open_store) at h)
            | inl (ps, q) ↦ elim (Result-cases managers.0) [
              | inr (e, m) ↦ cc (rw (p, q, m, open_store) at h)
              | inl (ms, m) ↦ rw (← opened-injective _ store (rw (p, q, m, open_store) at h)) q
            ]
          ]
        ]

    -- The runner that a store finds for a projection is made from what the disk held at `open`.
    open_store-runner :
        (P : Projection X) (any : AnyOf Any P.State) (b : AggregateStoreBuilder X G Any Actors)
        (before after : List (String × ProjectionFactory X G Any Actors)) (w : G.W)
        (d : Disk X.Bytes) (store : AggregateStore X G Any Actors)
        → b.projection_factories
          ≡ before ++ (P.name, projection_factory X G Any Actors P any) ∷ after
        → All (IsReader X G Any Actors) before
        → entry P.name after ≡ none
        → (open_store X G Any Actors T b w d).0.0 ≡ opened store
        → (at : Disk X.Bytes) × (runner : ProjectionRunner X P) × (at.files ≡ d.files)
          × ((Projection.new X P (join (join store.base_dir "projections") P.name) at).0
              ≡ ok runner)
          × (entry P.name store.projections ≡ some (erase X G Any P any runner))
    unfolding projection_factory
    open_store-runner P any b before after w d store listed readers gone h =
        let ready = rw listed at (opened-projections b w d store h) in
        let (at, made, same, ok_, found) =
          init_projections-last X G Any Actors before P.name
            (projection_factory X G Any Actors P any) after store.base_dir [] store.projections d
            readers gone ready in
        let here = join (join store.base_dir "projections") P.name in
        let (runner, loaded, is) =
          boxed-made X G Any Actors P any (Projection.new X P here at) made ok_ in
        (at, runner, same, loaded, found ∙ ap some (sym is))

    -- If a store has opened, and the last registration under a projection's name is this projection
    -- among factories that only read the disk, and whatever checkpoint the disk can give it then is
    -- the fold of a prefix of the global log, then reading it first, over a subscription that
    -- reports that it has caught up, gives the state that a rebuild from the start of the whole log
    -- gives, or the error of the checkpoint's save.
    pub open_store-projection :
        (P : Projection X) (any : AnyOf Any P.State)
        (downcast-into : (s : P.State) → any.downcast (any.into s) ≡ some s) (L : IsGlobalLog X G)
        (b : AggregateStoreBuilder X G Any Actors)
        (before after : List (String × ProjectionFactory X G Any Actors)) (w v : G.W)
        (d d' : Disk X.Bytes) (store : AggregateStore X G Any Actors)
        → b.projection_factories
          ≡ before ++ (P.name, projection_factory X G Any Actors P any) ∷ after
        → All (IsReader X G Any Actors) before
        → entry P.name after ≡ none
        → ((at : Disk X.Bytes) (runner : ProjectionRunner X P)
            → at.files ≡ d.files
            → (Projection.new X P (join (join store.base_dir "projections") P.name) at).0
              ≡ ok runner
            → IsAt X P G L v runner
              × ((stream : List (Item X)) × ((G.subscribe_all runner.checkpoint.last_global_position
                      v).0
                    ≡ ok stream)
                  × (is_caught_up stream ≡ true)))
        → (open_store X G Any Actors T b w d).0.0 ≡ opened store
        → (more : List (RecordedEvent X)) × (c : ProjectionCheckpoint X P) × (c
            ≡ consume (projection_cursor X P) (default_checkpoint X P) (L.log v ++ more))
          × ((projection X G Any P any
                (record { projections = store.projections; world = v; disk = d' })).0
              ≡ saved_as
                  (save_checkpoint X P (join (join store.base_dir "projections") P.name) c d').0
                  c.state)
    open_store-projection P any downcast-into L b before after w v d d' store listed readers gone
          loads h =
        let (at, runner, same, made, found) =
          open_store-runner P any b before after w d store listed readers gone h in
        let ready = loads at runner same made in
        let (stream, sub, done) = ready.1 in
        let (more, c, whole, read) =
          projection-rebuild X P G Any any downcast-into L
            (record { projections = store.projections; world = v; disk = d' }) runner stream found
            sub done ready.0 in
        let here = new-dir X P (join (join store.base_dir "projections") P.name) at runner made in
        (more, c, whole, rw (← here) read)
