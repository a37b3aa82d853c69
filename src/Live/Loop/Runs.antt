-- ===== src/Live/Loop/Runs.antt =====
-- src/live.rs, `run_live_loop`: an invariant of its runs.
use eventfold_es.Prelude.{ℕ, ◌≤◌, List, String, arith, Bool-cases, inl, inr}
use eventfold_es.Runtime.{Runtime}
use eventfold_es.Client.{Grpc}
use eventfold_es.Store.{Dispatcher, DeadLetters}
use eventfold_es.Live.{LiveConfig, next_delay, Live}
use eventfold_es.Live.Loop.{Phase, delay_after_end, Step, retry, end_stream, wake, Run, here, after}

module _ (X : Runtime) (G : Grpc X) (Actors : Type 0) (D : DeadLetters X G)
    (dispatchers : List (String × Dispatcher X G Actors)) (config : LiveConfig) where
  Step-delay :
      {p : Phase X} {d : ℕ} {s : Live X G Actors} {q : Phase X} {e : ℕ} {t : Live X G Actors}
      → config.reconnect_base_delay ≤ config.reconnect_max_delay
      → Step X G Actors D dispatchers config p d s q e t
      → d ≤ config.reconnect_max_delay
      → e ≤ config.reconnect_max_delay
  unfolding next_delay delay_after_end
  Step-delay base (retry d s) h = omega arith
  Step-delay base (wake d s) h = omega arith
  Step-delay base (end_stream d s) h = elim (Bool-cases s.is_caught_up) [
    | inl q ↦ rw (q, delay_after_end) base
    | inr q ↦ rw (q, delay_after_end) h
  ]
  Step-delay base _ h = h

  -- If the configured base delay is at most the maximum, so is the back-off delay of every state
  -- that the loop reaches from one whose delay is, however often it reconnects.
  pub Run-delay :
      {p : Phase X} {d : ℕ} {s : Live X G Actors} {q : Phase X} {e : ℕ} {t : Live X G Actors}
      → config.reconnect_base_delay ≤ config.reconnect_max_delay
      → Run X G Actors D dispatchers config p d s q e t
      → d ≤ config.reconnect_max_delay
      → e ≤ config.reconnect_max_delay
  Run-delay base here h = h
  Run-delay base (after step run) h = Run-delay base run (Step-delay base step h)
