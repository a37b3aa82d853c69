-- ===== src/Store/Builder.antt =====
-- src/store.rs: `AggregateStoreBuilder`, what it registers, and the store that `open` makes of it.
-- Connecting to the server and the system's temporary directory are parameters.
pub mod Registered
pub mod Opened
use eventfold_es.Prelude.{ℕ, String, Option, none, some, List, [], ◌∷◌, ◌++◌, Result, ok, err}
use eventfold_es.Runtime.{Runtime}
use eventfold_es.Client.{Grpc}
use eventfold_es.Io.{IoError, FilePath, join, Disk, Io}
use eventfold_es.Projection
use eventfold_es.Projection.{Projection, ProjectionRunner}
use eventfold_es.ProcessManager
use eventfold_es.ProcessManager.{ProcessManager}
use eventfold_es.Store.{DynProcessManager, erase_pm, Outside, Dispatcher}
use eventfold_es.Aggregate.{Aggregate}
use eventfold_es.Actor.Lifecycle.{Received}
use eventfold_es.Map.{insert}
use eventfold_es.Store.Registry.{Actors as TypeActors, typed_dispatcher}
use eventfold_es.Store.Views.{AnyOf, ProjectionCatchUp, erase}
use eventfold_es.Live
use eventfold_es.Live.{LiveConfig}
use eventfold_es.Live.Handle.{LiveHandle}

-- tonic::transport::Error and the two ways to connect, and std::env::temp_dir().
pub record Transport (X : Runtime) (G : Grpc X) : Type 1 where
  pub Error : Type 0
  pub connect : String → G.W → Result (Unit {0}) Error × G.W
  pub connect_with_token : String → String → G.W → Result (Unit {0}) Error × G.W
  pub temp_dir : FilePath

-- Option::unwrap_or
abbrev pub unwrap_or : {B : Type 0} → B → Option B → B
unwrap_or d none = d
unwrap_or d (some b) = b

-- The actors of one aggregate type, as a part of all the actors.
pub record Part (Whole B : Type 0) : Type 0 where
  pub get : Whole → B
  pub set : B → Whole → Whole

module _ (X : Runtime) (G : Grpc X) (Any Actors : Type 0) where
  -- The boxed closures: a runner is made in the base directory, a dispatcher for the store's.
  abbrev pub ProjectionFactory : Type 1
  ProjectionFactory =
      FilePath → Disk X.Bytes → Result (ProjectionCatchUp X G Any) IoError × Disk X.Bytes

  abbrev pub ProcessManagerFactory : Type 1
  ProcessManagerFactory =
      FilePath → Disk X.Bytes → Result (DynProcessManager X G) IoError × Disk X.Bytes

  abbrev pub DispatcherFactory : Type 0
  DispatcherFactory = FilePath → Dispatcher X G Actors

  pub record AggregateStoreBuilder : Type 1 where
    pub endpoint : Option String
    pub base_dir : Option FilePath
    pub auth_token : Option String
    pub projection_factories : List (String × ProjectionFactory)
    pub process_manager_factories : List (String × ProcessManagerFactory)
    pub dispatcher_factories : List (String × DispatcherFactory)
    pub idle_timeout : ℕ
    pub live_config : LiveConfig

  -- The store, without the server, the disk and the actors, which are `Outside`.
  pub record AggregateStore : Type 1 where
    pub base_dir : FilePath
    pub projections : List (String × ProjectionCatchUp X G Any)
    pub process_managers : List (DynProcessManager X G)
    pub dispatchers : List (String × Dispatcher X G Actors)
    pub idle_timeout : ℕ
    pub live_config : LiveConfig
    pub live_handle : Option LiveHandle

  -- AggregateStoreBuilder::new(), with DEFAULT_IDLE_TIMEOUT in milliseconds.
  unfoldable pub new : AggregateStoreBuilder
  new = record {
    endpoint = none;
    base_dir = none;
    auth_token = none;
    projection_factories = [];
    process_manager_factories = [];
    dispatcher_factories = [];
    idle_timeout = 300000;
    live_config = Live.default;
  }

  unfoldable pub endpoint : String → AggregateStoreBuilder → AggregateStoreBuilder
  endpoint url b = record b { endpoint = some url }

  unfoldable pub auth_token : String → AggregateStoreBuilder → AggregateStoreBuilder
  auth_token token b = record b { auth_token = some token }

  unfoldable pub base_dir : FilePath → AggregateStoreBuilder → AggregateStoreBuilder
  base_dir path b = record b { base_dir = some path }

  unfoldable pub idle_timeout : ℕ → AggregateStoreBuilder → AggregateStoreBuilder
  idle_timeout timeout b = record b { idle_timeout = timeout }

  unfoldable pub live_config : LiveConfig → AggregateStoreBuilder → AggregateStoreBuilder
  live_config config b = record b { live_config = config }

  -- Box::new(runner) as Box<dyn ProjectionCatchUp>, or the error that `?` passes on.
  unfoldable pub boxed :
      (P : Projection X)
      → AnyOf Any P.State
      → Result (ProjectionRunner X P) IoError × Disk X.Bytes
      → Result (ProjectionCatchUp X G Any) IoError × Disk X.Bytes
  boxed P any (ok runner, d) = (ok (erase X G Any P any runner), d)
  boxed P any (err e, d) = (err e, d)

  -- What a registered projection's factory does.
  unfoldable pub projection_factory : (P : Projection X) → AnyOf Any P.State → ProjectionFactory
  unfolding boxed
  projection_factory P any dir d =
      boxed P any (Projection.new X P (join (join dir "projections") P.name) d)

  unfoldable pub projection :
      (P : Projection X) → AnyOf Any P.State → AggregateStoreBuilder → AggregateStoreBuilder
  unfolding projection_factory
  projection P any b = record b {
    projection_factories = b.projection_factories ++ (P.name, projection_factory P any) ∷ [];
  }

  unfoldable pub process_manager_factory : ProcessManager X → ProcessManagerFactory
  process_manager_factory M dir d =
      let (made, d') = ProcessManager.new X M (join (join dir "process_managers") M.name) d in
      elim made [ ok runner ↦ (ok (erase_pm X M G runner), d') | err e ↦ (err e, d') ]

  unfoldable pub process_manager : ProcessManager X → AggregateStoreBuilder → AggregateStoreBuilder
  unfolding process_manager_factory
  process_manager M b = record b {
    process_manager_factories =
        b.process_manager_factories ++ (M.name, process_manager_factory M) ∷ [];
  }

  -- The dispatcher of a type, on that type's part of the actors.
  unfoldable pub type_dispatcher :
      (A : Aggregate X) (new_v4 : G.W → X.Uuid × G.W) (part : Part Actors (TypeActors X A))
      → List (ℕ × Received X A)
      → DispatcherFactory
  type_dispatcher A new_v4 part between dir envelope o =
      let o' : Outside X G (TypeActors X A) = record {
        world = o.world;
        disk = o.disk;
        actors = part.get o.actors;
      } in
      let (result, after) = typed_dispatcher X A G new_v4 dir between envelope o' in
      (
        result,
        record { world = after.world; disk = after.disk; actors = part.set after.actors o.actors },
      )

  unfoldable pub aggregate_type :
      (A : Aggregate X) (new_v4 : G.W → X.Uuid × G.W) (part : Part Actors (TypeActors X A))
      → List (ℕ × Received X A)
      → AggregateStoreBuilder
      → AggregateStoreBuilder
  unfolding type_dispatcher
  aggregate_type A new_v4 part between b = record b {
    dispatcher_factories =
        b.dispatcher_factories ++ (A.aggregate_type, type_dispatcher A new_v4 part between) ∷ [];
  }

  -- The loops of `open`, with what is built so far; a later registration of a name replaces an
  -- earlier one's runner, and an earlier one's dispatcher.
  unfoldable pub init_projections :
      List (String × ProjectionFactory)
      → FilePath
      → List (String × ProjectionCatchUp X G Any)
      → Disk X.Bytes
      → Result (List (String × ProjectionCatchUp X G Any)) IoError × Disk X.Bytes
  init_projections [] dir built d = (ok built, d)
  init_projections ((name, factory) ∷ rest) dir built d =
      let (made, d') = factory dir d in
      elim made [
        | err e ↦ (err e, d')
        | ok runner ↦ init_projections rest dir (insert name runner built) d'
      ]

  unfoldable pub init_process_managers :
      List (String × ProcessManagerFactory)
      → FilePath
      → List (DynProcessManager X G)
      → Disk X.Bytes
      → Result (List (DynProcessManager X G)) IoError × Disk X.Bytes
  init_process_managers [] dir built d = (ok built, d)
  init_process_managers ((name, factory) ∷ rest) dir built d =
      let (made, d') = factory dir d in
      elim made [
        | err e ↦ (err e, d')
        | ok runner ↦ init_process_managers rest dir (built ++ runner ∷ []) d'
      ]

  unfoldable pub build_dispatchers :
      List (String × DispatcherFactory)
      → FilePath
      → List (String × Dispatcher X G Actors)
      → List (String × Dispatcher X G Actors)
  build_dispatchers [] dir built = built
  build_dispatchers ((name, factory) ∷ rest) dir built =
      build_dispatchers rest dir (insert name (factory dir) built)

  module _ (T : Transport X G) where
    -- A store, the transport's error, or a panic of `expect`.
    pub data Opening : Type 1 where
      opened : AggregateStore → Opening
      refused : T.Error → Opening
      panicked : IoError → Opening

    unfoldable pub connect_with : Option String → String → G.W → Result (Unit {0}) T.Error × G.W
    connect_with none url w = T.connect url w
    connect_with (some token) url w = T.connect_with_token url token w

    -- AggregateStoreBuilder::open
    unfoldable pub open_store :
        AggregateStoreBuilder → G.W → Disk X.Bytes → (Opening × G.W) × Disk X.Bytes
    unfolding init_projections init_process_managers build_dispatchers connect_with
    open_store b w d =
        let url = unwrap_or "http://127.0.0.1:2113" b.endpoint in
        let dir = unwrap_or (join T.temp_dir "eventfold-es") b.base_dir in
        let (connected, w') = connect_with b.auth_token url w in
        let (projections, d1) = init_projections b.projection_factories dir [] d in
        let (managers, d2) = init_process_managers b.process_manager_factories dir [] d1 in
        elim connected [
          | err e ↦ ((refused e, w'), d)
          | ok _ ↦ elim projections [
            | err e ↦ ((panicked e, w'), d1)
            | ok ps ↦ elim managers [
              | err e ↦ ((panicked e, w'), d2)
              | ok ms ↦ (
                (
                  opened (record {
                    base_dir = dir;
                    projections = ps;
                    process_managers = ms;
                    dispatchers = build_dispatchers b.dispatcher_factories dir [];
                    idle_timeout = b.idle_timeout;
                    live_config = b.live_config;
                    live_handle = none;
                  }),
                  w',
                ),
                d2,
              )
            ]
          ]
        ]
