-- ===== src/Store/Saved.antt =====
-- src/store.rs: when `run_process_managers` writes checkpoints.
use eventfold_es.Prelude.{
  ◌≡◌, refl, ap, ◌∙◌, false, inl, inr, ◌⊎◌, some, List, [], ◌∷◌, String, ok, All, Bool-cases,
  str_eq, Option-cases, Result-cases,
}
use eventfold_es.Runtime.{Runtime, entry}
use eventfold_es.Command.{CommandEnvelope}
use eventfold_es.Client.{Grpc}
use eventfold_es.Io.{FilePath, Disk, path_eq, store_at, write, append_line, ◌>>=◌}
use eventfold_es.Io.Atomic.{create_dir_all-cases, write-cases}
use eventfold_es.Store.{
  DynProcessManager, Outside, Dispatcher, ProcessManagerReport, DeadLetters, entry_text, parent,
  append_dead_letter, dead_letter, dispatch_envelope, dispatch_all, dispatch_work, collect,
  run_process_managers,
}

module _ (X : Runtime) (G : Grpc X) (Actors : Type 0) (D : DeadLetters X G)
    (dispatchers : List (String × Dispatcher X G Actors)) (q : FilePath) where
  -- What an action leaves in the file.
  abbrev pub SameFile : Outside X G Actors → Outside X G Actors → Type 0
  SameFile o o' = o'.disk.files q ≡ o.disk.files q

  -- No command writes the file, nor does a line in a dead-letter log.
  abbrev pub LeaveAlone : Type 0
  LeaveAlone =
      All
        (λ (d : String × Dispatcher X G Actors).
          (e : CommandEnvelope X) (o : Outside X G Actors) → SameFile o (d.1 e o).1)
        dispatchers

  abbrev pub LogElsewhere : List (DynProcessManager X G) → Type 0
  LogElsewhere =
      All (λ (p : DynProcessManager X G).
        (self : p.Self) → path_eq (p.dead_letter_path self) q ≡ false)

  abbrev WorkElsewhere : List (List (CommandEnvelope X) × FilePath) → Type 0
  WorkElsewhere = All (λ (w : List (CommandEnvelope X) × FilePath). path_eq w.1 q ≡ false)

  write-SameFile :
      (path : FilePath) (b : X.Bytes) (d : Disk X.Bytes)
      → path_eq path q ≡ false
      → (write path b d).1.files q ≡ d.files q
  unfolding store_at
  write-SameFile path b d apart =
      let (d', cases) = write-cases path b d in
      elim cases [
        | inl (e, f) ↦ rw (e, f, apart) refl
        | inr (_, left, e, f) ↦ rw (e, f, apart) refl
      ]

  append_dead_letter-SameFile :
      (path : FilePath) (e : CommandEnvelope X) (error : String) (o : Outside X G Actors)
      → path_eq path q ≡ false
      → SameFile o (append_dead_letter X G Actors D path e error o).1
  unfolding append_dead_letter append_line ◌>>=◌
  append_dead_letter-SameFile path e error o apart =
      elim (Result-cases (entry_text X G Actors D e error (D.now o.world))) [
        | inr (x, p) ↦ rw (p, append_dead_letter) refl
        | inl (json, p) ↦
            let (d1, same, made) = create_dir_all-cases (parent path) o.disk in
            elim made [
              | inr (x, m) ↦ rw (p, m, append_dead_letter) (ap (λ f. f q) same)
              | inl m ↦
                  rw (p, m, append_dead_letter)
                    (write-SameFile path (D.join_lines (d1.files path) json) d1 apart
                      ∙ ap (λ f. f q) same)
            ]
      ]

  dead_letter-SameFile :
      (path : FilePath) (e : CommandEnvelope X) (error : String) (r : ProcessManagerReport)
      (o : Outside X G Actors)
      → path_eq path q ≡ false
      → SameFile o (dead_letter X G Actors D dispatchers path e error r o).1
  unfolding dead_letter
  dead_letter-SameFile path e error r o apart =
      let kept = append_dead_letter-SameFile path e error o apart in
      elim (Result-cases (append_dead_letter X G Actors D path e error o).0) [
        | inl (_, p) ↦ rw (p, dead_letter) kept
        | inr (_, p) ↦ rw (p, dead_letter) kept
      ]

  entry-SameFile :
      (ds : List (String × Dispatcher X G Actors)) (k : String) (dispatch : Dispatcher X G Actors)
      → All
          (λ (d : String × Dispatcher X G Actors).
            (e : CommandEnvelope X) (o : Outside X G Actors) → SameFile o (d.1 e o).1)
          ds
      → entry k ds ≡ some dispatch
      → (e : CommandEnvelope X) (o : Outside X G Actors) → SameFile o (dispatch e o).1
  unfolding entry
  entry-SameFile [] k dispatch h found = cc
  entry-SameFile ((j, d) ∷ ds) k dispatch h found = elim (Bool-cases (str_eq j k)) [
    | inl s ↦ let same : d ≡ dispatch = cc (rw (s, entry) at found) in rw (← same) h.0
    | inr s ↦ entry-SameFile ds k dispatch h.1 (rw (s, entry) at found)
  ]

  dispatch_envelope-SameFile :
      (path : FilePath) (e : CommandEnvelope X) (r : ProcessManagerReport) (o : Outside X G Actors)
      → LeaveAlone
      → path_eq path q ≡ false
      → SameFile o (dispatch_envelope X G Actors D dispatchers path e r o).1
  unfolding dispatch_envelope
  dispatch_envelope-SameFile path e r o alone apart =
      elim (Option-cases (entry e.aggregate_type dispatchers)) [
        | inl p ↦ rw (p, dispatch_envelope) (dead_letter-SameFile path e _ r o apart)
        | inr (dispatch, p) ↦
            let kept = entry-SameFile dispatchers e.aggregate_type dispatch alone p e o in
            elim (Result-cases (dispatch e o).0) [
              | inl (_, d) ↦ rw (p, d, dispatch_envelope) kept
              | inr (x, d) ↦
                  rw (p, d, dispatch_envelope)
                    (dead_letter-SameFile path e x.message r (dispatch e o).1 apart ∙ kept)
            ]
      ]

  dispatch_all-SameFile :
      (path : FilePath) (es : List (CommandEnvelope X)) (r : ProcessManagerReport)
      (o : Outside X G Actors)
      → LeaveAlone
      → path_eq path q ≡ false
      → SameFile o (dispatch_all X G Actors D dispatchers path es r o).1
  unfolding dispatch_all
  dispatch_all-SameFile path [] r o alone apart = refl
  dispatch_all-SameFile path (e ∷ es) r o alone apart =
      let one = dispatch_envelope X G Actors D dispatchers path e r o in
      let kept = dispatch_envelope-SameFile path e r o alone apart in
      elim (Result-cases one.0) [
        | inl (r1, p) ↦
            rw (p, dispatch_all) (dispatch_all-SameFile path es r1 one.1 alone apart ∙ kept)
        | inr (_, p) ↦ rw (p, dispatch_all) kept
      ]

  dispatch_work-SameFile :
      (work : List (List (CommandEnvelope X) × FilePath)) (r : ProcessManagerReport)
      (o : Outside X G Actors)
      → LeaveAlone
      → WorkElsewhere work
      → SameFile o (dispatch_work X G Actors D dispatchers work r o).1
  unfolding dispatch_work
  dispatch_work-SameFile [] r o alone apart = refl
  dispatch_work-SameFile ((es, path) ∷ rest) r o alone apart =
      let one = dispatch_all X G Actors D dispatchers path es r o in
      let kept = dispatch_all-SameFile path es r o alone apart.0 in
      elim (Result-cases one.0) [
        | inl (r1, p) ↦
            rw (p, dispatch_work) (dispatch_work-SameFile rest r1 one.1 alone apart.1 ∙ kept)
        | inr (_, p) ↦ rw (p, dispatch_work) kept
      ]

  collect-WorkElsewhere :
      (pms : List (DynProcessManager X G)) (w : G.W)
      (work : List (List (CommandEnvelope X) × FilePath))
      → LogElsewhere pms
      → (collect X G Actors D pms w).0.0 ≡ ok work
      → WorkElsewhere work
  unfolding collect
  collect-WorkElsewhere [] w work h e = let same : [] ≡ work = cc in rw (← same) tt
  collect-WorkElsewhere (pm ∷ pms) w work h e =
      let one = pm.catch_up pm.self w in
      let others = collect X G Actors D pms one.1 in
      elim (Result-cases one.0.0) [
        | inr (_, p) ↦ cc (rw (p, collect) at e)
        | inl (envelopes, p) ↦ elim (Result-cases others.0.0) [
          | inr (_, s) ↦ cc (rw (p, s, collect) at e)
          | inl (later, s) ↦
              let same : (envelopes, pm.dead_letter_path one.0.1) ∷ later ≡ work =
                cc (rw (p, s, collect) at e) in
              rw (← same) (h.0 one.0.1, collect-WorkElsewhere pms one.1 later h.1 s)
        ]
      ]

  -- A run saves no checkpoint before each envelope that it collected was dispatched or dead-lettered:
  -- a file that neither commands nor dead-letter logs write is after the run as it was before it, or
  -- else the run collected from every process manager and handled all that it collected. What runs
  -- before or behind this one do is left open.
  pub run_process_managers_saves_last :
      (pms : List (DynProcessManager X G)) (o : Outside X G Actors)
      → LeaveAlone
      → LogElsewhere pms
      → SameFile o (run_process_managers X G Actors D dispatchers pms o).1
        ⊎ ((work : List (List (CommandEnvelope X) × FilePath)) × (report : ProcessManagerReport)
            × ((collect X G Actors D pms o.world).0.0 ≡ ok work)
            × ((dispatch_work X G Actors D dispatchers work
                  (record { dispatched = 0; dead_lettered = 0 })
                  (record o { world = (collect X G Actors D pms o.world).1 })).0
                ≡ ok report))
  unfolding run_process_managers
  run_process_managers_saves_last pms o alone apart =
      let zero_report : ProcessManagerReport = record { dispatched = 0; dead_lettered = 0 } in
      let collected = collect X G Actors D pms o.world in
      let o1 : Outside X G Actors = record o { world = collected.1 } in
      elim (Result-cases collected.0.0) [
        | inr (_, p) ↦ rw (p, run_process_managers) (inl refl)
        | inl (work, p) ↦
            let kept =
              dispatch_work-SameFile work zero_report o1 alone
                (collect-WorkElsewhere pms o.world work apart p) in
            elim (Result-cases (dispatch_work X G Actors D dispatchers work zero_report o1).0) [
              | inr (_, s) ↦ rw (p, s, run_process_managers) (inl kept)
              | inl (report, s) ↦ inr (work, report, p, s)
            ]
      ]
