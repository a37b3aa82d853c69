-- ===== src/Tests/ExampleRuns.antt =====
-- The counter of the example and its totals, at short runs.
use eventfold_es.Prelude.{◌≡◌, refl, none, List, [], ◌∷◌, ◌++◌, ok, err, arith}
use eventfold_es.Event.{RecordedEvent}
use eventfold_es.GlobalLog.{IsBehind-start}
use eventfold_es.Projection.{ProjectionRunner, default_checkpoint, catch_up}
use eventfold_es.Projection.Stream.{projection_cursor}
use eventfold_es.Projection.Fold.{stored}
use eventfold_es.Example.{
  CounterEvent, incremented, decremented, was_reset, increment, decrement, reset, Serde,
  total_counter, handle, apply,
}
use eventfold_es.Example.Int64.{pos, add_one, sub_one, is_zero, is_at_most_zero}
use eventfold_es.Example.Balance.{Decided, fresh, commanded, IsBalanced, Decided-IsBalanced}
use eventfold_es.Example.Totals.{totals_of, catch_up-totals}
use eventfold_es.Tests.Json.{json_runtime, blank, null}
use eventfold_es.Tests.Readers.{two_event_grpc, two_event_log}
use eventfold_es.Tests.ReaderExamples.{outside}

-- Up three times, reset, and up, down, up.
abbrev history : List CounterEvent
history =
    incremented
    ∷ incremented
    ∷ incremented
    ∷ was_reset (pos 3)
    ∷ incremented
    ∷ decremented
    ∷ incremented
    ∷ []

history-Decided : Decided history (record { value = pos 1 })
unfolding handle apply add_one sub_one is_zero is_at_most_zero
history-Decided =
    commanded increment _
      (commanded decrement _
        (commanded increment _
          (commanded reset _
            (commanded increment _ (commanded increment _ (commanded increment _ fresh refl) refl)
              refl)
            refl)
          refl)
        refl)
      refl

Decided-IsBalanced_example : IsBalanced (2, 1) 7 (record { value = pos 1 })
Decided-IsBalanced_example = Decided-IsBalanced history-Decided (omega arith)

-- A codec that writes nothing; no file is read in this run.
abbrev serde : Serde json_runtime
serde = record {
  event_to_value = λ _. ok null;
  event_from_value = λ _. none;
  command_from_value = λ _. err "no commands";
  snapshot_to_vec = λ _ _. ok blank;
  snapshot_from_slice = λ _. none;
  totals_to_string = λ _ _. ok blank;
  totals_from_str = λ _. none;
}

abbrev new_totals : ProjectionRunner json_runtime (total_counter json_runtime serde)
new_totals = record {
  checkpoint = default_checkpoint json_runtime (total_counter json_runtime serde);
  checkpoint_dir = "projections" ∷ "total-counter" ∷ [];
}

catch_up-totals_example :
    (seen rest : List (RecordedEvent json_runtime)) × (two_event_log.log
        (catch_up json_runtime
          (total_counter json_runtime serde)
          two_event_grpc
          new_totals
          tt
          outside.disk).0.1
      ≡ seen ++ rest)
    × ((catch_up json_runtime
          (total_counter json_runtime serde)
          two_event_grpc
          new_totals
          tt
          outside.disk).0.0.1.checkpoint.state
        ≡ totals_of json_runtime serde (stored seen))
unfolding two_event_log
catch_up-totals_example =
    catch_up-totals json_runtime serde two_event_grpc two_event_log new_totals tt outside.disk
      (IsBehind-start (projection_cursor json_runtime (total_counter json_runtime serde))
        (default_checkpoint json_runtime (total_counter json_runtime serde)) (two_event_log.log tt))
      (omega arith, (omega arith, tt))
