-- ===== src/Store.antt =====
-- src/store.rs: running the process managers of a store and dispatching what they emit, over the
-- type-erased traits of src/process_manager.rs and src/store.rs.
pub mod Report
pub mod Saved
pub mod Redone
pub mod Registry
pub mod Views
pub mod Builder
pub mod Control
use Prim.Native.String.{◌++◌ as str_append}
use eventfold_es.Prelude.{
  ℕ, String, Bool, true, false, Option, none, some, List, [], ◌∷◌, Result, ok, err, next_u64,
}
use eventfold_es.Runtime.{Runtime, entry}
use eventfold_es.Command.{CommandEnvelope}
use eventfold_es.Event.{RecordedEvent}
use eventfold_es.Client.{Grpc}
use eventfold_es.Io.{
  IoError, other_error, FilePath, Disk, Io, create_dir_all, append_line, ◌>>=◌, ◌>>◌,
}
use eventfold_es.ProcessManager
use eventfold_es.ProcessManager.{
  ProcessManager, ProcessManagerRunner, react_recorded_event, save, dead_letter_path, catch_up,
}

-- Box<dyn ProcessManagerCatchUp>
pub record DynProcessManager (X : Runtime) (G : Grpc X) : Type 1 where
  pub Self : Type 0
  pub self : Self
  pub catch_up : Self → G.W → (Result (List (CommandEnvelope X)) IoError × Self) × G.W
  pub react_event : Self → RecordedEvent X → Self × List (CommandEnvelope X)
  pub position : Self → ℕ
  pub save : Self → Io X.Bytes (Unit {0})
  pub name : String
  pub dead_letter_path : Self → FilePath

module _ (X : Runtime) (M : ProcessManager X) (G : Grpc X) where
  unfoldable pub react_event :
      ProcessManagerRunner X M
      → RecordedEvent X
      → ProcessManagerRunner X M × List (CommandEnvelope X)
  react_event runner recorded =
      let (c, produced) = react_recorded_event X M runner.checkpoint recorded in
      (record runner { checkpoint = c }, produced)

  -- impl ProcessManagerCatchUp for ProcessManagerRunner
  unfoldable pub erase_pm : ProcessManagerRunner X M → DynProcessManager X G
  unfolding react_event
  erase_pm runner = record {
    Self = ProcessManagerRunner X M;
    self = runner;
    catch_up = ProcessManager.catch_up X M G;
    react_event = react_event;
    position = λ r. r.checkpoint.last_global_position;
    save = ProcessManager.save X M;
    name = M.name;
    dead_letter_path = ProcessManager.dead_letter_path X M;
  }

-- What a store's methods act on: the server, the disk, and the actors that run in this process.
pub record Outside (X : Runtime) (G : Grpc X) (Actors : Type 0) : Type 0 where
  pub world : G.W
  pub disk : Disk X.Bytes
  pub actors : Actors

-- Box<dyn AggregateDispatcher>
abbrev pub Dispatcher : (X : Runtime) → Grpc X → Type 0 → Type 0
Dispatcher X G Actors =
    CommandEnvelope X → Outside X G Actors → Result (Unit {0}) IoError × Outside X G Actors

pub record ProcessManagerReport : Type 0 where
  pub dispatched : ℕ
  pub dead_lettered : ℕ

-- What the dead-letter log takes from outside: the clock, serde_json of a `DeadLetterEntry`
-- (envelope, error, time), and a line at the end of a file.
pub record DeadLetters (X : Runtime) (G : Grpc X) : Type 0 where
  pub now : G.W → ℕ
  pub entry_json : CommandEnvelope X → String → ℕ → Result X.Bytes String
  pub join_lines : Option X.Bytes → X.Bytes → X.Bytes

-- The parent directory of a path.
unfoldable pub parent : FilePath → FilePath
parent [] = []
parent (c ∷ []) = []
parent (c ∷ d ∷ rest) = c ∷ parent (d ∷ rest)

module _ (X : Runtime) (G : Grpc X) (Actors : Type 0) (D : DeadLetters X G) where
  unfoldable pub entry_text : CommandEnvelope X → String → ℕ → Result X.Bytes IoError
  entry_text envelope error ts = elim (D.entry_json envelope error ts) [
    | ok b ↦ ok b
    | err m ↦ err (other_error m)
  ]

  unfoldable pub append_dead_letter :
      FilePath
      → CommandEnvelope X
      → String
      → Outside X G Actors
      → Result (Unit {0}) IoError × Outside X G Actors
  append_dead_letter path envelope error o =
      let append : Io X.Bytes (Unit {0}) = do
        json ← (λ d. (entry_text envelope error (D.now o.world), d))
        create_dir_all (parent path)
        append_line D.join_lines path json
      in let (result, d) = append o.disk in (result, record o { disk = d })

  module _ (dispatchers : List (String × Dispatcher X G Actors)) where
    -- A dead letter that cannot be written ends the run.
    pub dead_letter :
        FilePath
        → CommandEnvelope X
        → String
        → ProcessManagerReport
        → Outside X G Actors
        → Result ProcessManagerReport IoError × Outside X G Actors
    dead_letter path envelope error report o =
        let (written, o') = append_dead_letter path envelope error o in
        elim written [
          | ok _ ↦ (ok (record report { dead_lettered = next_u64 report.dead_lettered }), o')
          | err e ↦ (err e, o')
        ]

    unfoldable pub dispatch_envelope :
        FilePath
        → CommandEnvelope X
        → ProcessManagerReport
        → Outside X G Actors
        → Result ProcessManagerReport IoError × Outside X G Actors
    unfolding dead_letter
    dispatch_envelope path envelope report o = elim (entry envelope.aggregate_type dispatchers) [
      | some dispatch ↦
          let (result, o') = dispatch envelope o in
          elim result [
            | ok _ ↦ (ok (record report { dispatched = next_u64 report.dispatched }), o')
            | err e ↦ dead_letter path envelope e.message report o'
          ]
      | none ↦
          dead_letter path envelope (str_append "unknown aggregate type: " envelope.aggregate_type)
            report o
    ]

    -- `for envelope in envelopes`
    pub dispatch_all :
        FilePath
        → List (CommandEnvelope X)
        → ProcessManagerReport
        → Outside X G Actors
        → Result ProcessManagerReport IoError × Outside X G Actors
    dispatch_all path [] report o = (ok report, o)
    dispatch_all path (e ∷ rest) report o =
        let (result, o') = dispatch_envelope path e report o in
        elim result [ ok report' ↦ dispatch_all path rest report' o' | err e' ↦ (err e', o') ]

    -- `for (envelopes, dead_letter_path) in &all_work`
    unfoldable pub dispatch_work :
        List (List (CommandEnvelope X) × FilePath)
        → ProcessManagerReport
        → Outside X G Actors
        → Result ProcessManagerReport IoError × Outside X G Actors
    unfolding dispatch_all
    dispatch_work [] report o = (ok report, o)
    dispatch_work ((envelopes, path) ∷ rest) report o =
        let (result, o') = dispatch_all path envelopes report o in
        elim result [ ok report' ↦ dispatch_work rest report' o' | err e ↦ (err e, o') ]

  -- The first loop: every process manager catches up, until one fails.
  unfoldable pub collect :
      List (DynProcessManager X G)
      → G.W
      → (Result (List (List (CommandEnvelope X) × FilePath)) IoError × List (DynProcessManager X G))
        × G.W
  collect [] w = ((ok [], []), w)
  collect (pm ∷ pms) w =
      let ((result, self), w') = pm.catch_up pm.self w in
      let pm' : DynProcessManager X G = record {
        Self = pm.Self;
        self = self;
        catch_up = pm.catch_up;
        react_event = pm.react_event;
        position = pm.position;
        save = pm.save;
        name = pm.name;
        dead_letter_path = pm.dead_letter_path;
      } in
      let ((others, pms'), w'') = collect pms w' in
      elim result [
        | err e ↦ ((err e, pm' ∷ pms), w')
        | ok envelopes ↦ elim others [
          | err e ↦ ((err e, pm' ∷ pms'), w'')
          | ok work ↦ ((ok ((envelopes, pm.dead_letter_path self) ∷ work), pm' ∷ pms'), w'')
        ]
      ]

  -- The last loop: `pm.save()?`
  unfoldable pub save_all : List (DynProcessManager X G) → Io X.Bytes (Unit {0})
  save_all [] d = (ok tt, d)
  save_all (pm ∷ pms) d =
      let (result, d') = pm.save pm.self d in
      let others = save_all pms d' in elim result [ err e ↦ (err e, d') | ok _ ↦ others ]

  -- Checkpoints are saved only when everything was dispatched or dead-lettered.
  unfoldable pub run_process_managers :
      List (String × Dispatcher X G Actors)
      → List (DynProcessManager X G)
      → Outside X G Actors
      → (Result ProcessManagerReport IoError × List (DynProcessManager X G)) × Outside X G Actors
  run_process_managers dispatchers pms o =
      let ((collected, pms'), w) = collect pms o.world in
      let o1 : Outside X G Actors = record o { world = w } in
      elim collected [
        | err e ↦ ((err e, pms'), o1)
        | ok work ↦
            let (result, o2) =
              dispatch_work dispatchers work (record { dispatched = 0; dead_lettered = 0 }) o1 in
            let (saved, d) = save_all pms' o2.disk in
            elim result [
              | err e ↦ ((err e, pms'), o2)
              | ok report ↦ elim saved [
                | err e ↦ ((err e, pms'), record o2 { disk = d })
                | ok _ ↦ ((ok report, pms'), record o2 { disk = d })
              ]
            ]
      ]
