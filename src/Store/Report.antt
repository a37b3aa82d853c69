-- ===== src/Store/Report.antt =====
-- src/store.rs: what the report of `run_process_managers` accounts for.
use eventfold_es.Prelude.{
  ℕ, ◌+◌, ◌<◌, ◌≡◌, inl, inr, List, [], ◌∷◌, String, ok, arith, length, u64_mod, next_u64-eq,
  Result-cases, Option-cases,
}
use eventfold_es.Runtime.{Runtime, entry}
use eventfold_es.Command.{CommandEnvelope}
use eventfold_es.Client.{Grpc}
use eventfold_es.Io.{FilePath}
use eventfold_es.Store.{
  DynProcessManager, Outside, Dispatcher, ProcessManagerReport, DeadLetters, append_dead_letter,
  dead_letter, dispatch_envelope, dispatch_all, dispatch_work, collect, save_all,
  run_process_managers,
}

-- How many envelopes a report accounts for.
abbrev pub handled : ProcessManagerReport → ℕ
handled r = r.dispatched + r.dead_lettered

-- How many envelopes were collected.
abbrev pub total : {X : Runtime} → List (List (CommandEnvelope X) × FilePath) → ℕ
total [] = 0
total ((envelopes, path) ∷ rest) = length envelopes + total rest

module _ (X : Runtime) (G : Grpc X) (Actors : Type 0) (D : DeadLetters X G)
    (dispatchers : List (String × Dispatcher X G Actors)) where
  dead_letter-handled :
      (path : FilePath) (e : CommandEnvelope X) (error : String) (r r' : ProcessManagerReport)
      (o : Outside X G Actors)
      → (dead_letter X G Actors D dispatchers path e error r o).0 ≡ ok r'
      → handled r + 1 < u64_mod
      → handled r' ≡ handled r + 1
  unfolding dead_letter
  dead_letter-handled path e error r r' o h room =
      elim (Result-cases (append_dead_letter X G Actors D path e error o).0) [
        | inl (_, q) ↦
            let same = rw (q, dead_letter) at h in ground (arith, same, next_u64-eq r.dead_lettered)
        | inr (_, q) ↦ cc (rw (q, dead_letter) at h)
      ]

  dispatch_envelope-handled :
      (path : FilePath) (e : CommandEnvelope X) (r r' : ProcessManagerReport)
      (o : Outside X G Actors)
      → (dispatch_envelope X G Actors D dispatchers path e r o).0 ≡ ok r'
      → handled r + 1 < u64_mod
      → handled r' ≡ handled r + 1
  unfolding dispatch_envelope
  dispatch_envelope-handled path e r r' o h room =
      elim (Option-cases (entry e.aggregate_type dispatchers)) [
        | inl q ↦ dead_letter-handled path e _ r r' o (rw (q, dispatch_envelope) at h) room
        | inr (dispatch, q) ↦ elim (Result-cases (dispatch e o).0) [
          | inl (_, p) ↦
              let same = rw (q, p, dispatch_envelope) at h in
              ground (arith, same, next_u64-eq r.dispatched)
          | inr (x, p) ↦
              dead_letter-handled path e x.message r r' (dispatch e o).1
                (rw (q, p, dispatch_envelope) at h) room
        ]
      ]

  dispatch_all-handled :
      (path : FilePath) (es : List (CommandEnvelope X)) (r r' : ProcessManagerReport)
      (o : Outside X G Actors)
      → (dispatch_all X G Actors D dispatchers path es r o).0 ≡ ok r'
      → handled r + length es < u64_mod
      → handled r' ≡ handled r + length es
  unfolding dispatch_all
  dispatch_all-handled path [] r r' o h room = ground arith
  dispatch_all-handled path (e ∷ es) r r' o h room =
      let one = dispatch_envelope X G Actors D dispatchers path e r o in
      elim (Result-cases one.0) [
        | inl (r1, q) ↦
            let step = dispatch_envelope-handled path e r r1 o q (omega arith) in
            omega (
              arith,
              step,
              dispatch_all-handled path es r1 r' one.1 (rw (q, dispatch_all) at h) (omega arith),
            )
        | inr (x, q) ↦ cc (rw (q, dispatch_all) at h)
      ]

  pub dispatch_work-handled :
      (work : List (List (CommandEnvelope X) × FilePath)) (r r' : ProcessManagerReport)
      (o : Outside X G Actors)
      → (dispatch_work X G Actors D dispatchers work r o).0 ≡ ok r'
      → handled r + total work < u64_mod
      → handled r' ≡ handled r + total work
  unfolding dispatch_work
  dispatch_work-handled [] r r' o h room = ground arith
  dispatch_work-handled ((es, path) ∷ rest) r r' o h room =
      let one = dispatch_all X G Actors D dispatchers path es r o in
      elim (Result-cases one.0) [
        | inl (r1, q) ↦
            let step = dispatch_all-handled path es r r1 o q (omega arith) in
            omega (
              arith,
              step,
              dispatch_work-handled rest r1 r' one.1 (rw (q, dispatch_work) at h) (omega arith),
            )
        | inr (x, q) ↦ cc (rw (q, dispatch_work) at h)
      ]

  -- When a run succeeds, each collected envelope was either dispatched or dead-lettered: the two
  -- counts of the report add up to the number of envelopes, if that fits a `usize`.
  pub run_process_managers-handled :
      (pms : List (DynProcessManager X G)) (o : Outside X G Actors) (report : ProcessManagerReport)
      (work : List (List (CommandEnvelope X) × FilePath))
      → (collect X G Actors D pms o.world).0.0 ≡ ok work
      → total work < u64_mod
      → (run_process_managers X G Actors D dispatchers pms o).0.0 ≡ ok report
      → handled report ≡ total work
  unfolding run_process_managers
  run_process_managers-handled pms o report work q room h =
      let zero_report : ProcessManagerReport = record { dispatched = 0; dead_lettered = 0 } in
      let collected = collect X G Actors D pms o.world in
      let o1 : Outside X G Actors = record o { world = collected.1 } in
      let ran = dispatch_work X G Actors D dispatchers work zero_report o1 in
      elim (Result-cases ran.0) [
        | inr (e, p) ↦ cc (rw (q, p, run_process_managers) at h)
        | inl (r1, p) ↦ elim (Result-cases (save_all X G Actors D collected.0.1 ran.1.disk).0) [
          | inr (e, s) ↦ cc (rw (q, p, s, run_process_managers) at h)
          | inl (_, s) ↦
              let same : r1 ≡ report = cc (rw (q, p, s, run_process_managers) at h) in
              rw (← same)
                (omega (arith, dispatch_work-handled work zero_report r1 o1 p (omega arith)))
        ]
      ]
