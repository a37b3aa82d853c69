-- ===== src/Tests/LiveExamples.antt =====
-- The theorems on the live loop, over the two-event server.
use eventfold_es.Prelude.{
  ℕ, ◌≤◌, ◌≡◌, refl, sym, ap, ◌∙◌, false, none, List, [], ◌∷◌, ◌++◌, append-nil, ok, arith,
  next_u64,
}
use eventfold_es.Client.{subscribe_all_from}
use eventfold_es.Cursor.{Item, consume, from_position}
use eventfold_es.Io.{Disk}
use eventfold_es.ProcessManager.{ProcessManagerRunner}
use eventfold_es.Event.{decode_stored_event}
use eventfold_es.Projection.{ProjectionRunner, apply_recorded_event, default_checkpoint}
use eventfold_es.Store.{erase_pm}
use eventfold_es.Live.{
  Live, LiveConfig, erase_projection, min_global_position, min_projections, min_managers,
}
use eventfold_es.Live.Loop.{
  Run, here, after, connecting, returned, saved, fan_out, subscribe, receive, stop_dispatching,
}
use eventfold_es.Live.Loop.Runs.{Run-delay}
use eventfold_es.Live.Fanout.{live_events}
use eventfold_es.ProcessManager
use eventfold_es.Live.Loop.Emitted
use eventfold_es.Live.Loop.Emitted.{Run-emitted_IsBehind}
use eventfold_es.Live.Loop.Reading.{IsHistory}
use eventfold_es.Live.Loop.Exact.{Holds, IsBehindHistory}
use eventfold_es.Tests.Json.{json_runtime, Document}
use eventfold_es.Tests.Readers.{
  Logged, logged, deliver, global_log, two_event_grpc, counting, replying, dead_letters,
}

abbrev pub config : LiveConfig
config = record {
  checkpoint_interval = 5000;
  reconnect_base_delay = 1000;
  reconnect_max_delay = 30000;
}

abbrev pub reader : ProjectionRunner json_runtime counting
reader = record {
  checkpoint = record { state = 1; last_global_position = 1 };
  checkpoint_dir = "projections" ∷ [];
}

abbrev pub replier : ProcessManagerRunner json_runtime replying
replier = record {
  checkpoint = record { state = 0; last_global_position = 0 };
  checkpoint_dir = "managers" ∷ [];
}

abbrev pub empty_files : Disk Document
empty_files = record { files = λ _. none; faults = [] }

abbrev pub live_start : Live json_runtime two_event_grpc (Unit {0})
live_start = record {
  projections = erase_projection json_runtime counting two_event_grpc reader ∷ [];
  process_managers = erase_pm json_runtime replying two_event_grpc replier ∷ [];
  outside = record { world = tt; disk = empty_files; actors = tt };
  is_caught_up = false;
  position = 0;
}

abbrev pub both_events : List (Item json_runtime)
both_events = deliver global_log

-- The loop subscribes, receives the first event, and is stopped before it has dispatched.
pub subscribed :
    (subscribe_all_from json_runtime two_event_grpc
      (min_global_position json_runtime two_event_grpc live_start.projections
        live_start.process_managers)
      tt).0
    ≡ ok both_events
unfolding subscribe_all_from min_global_position min_projections min_managers erase_projection
    erase_pm from_position
subscribed = refl

abbrev stopped_state : Live json_runtime two_event_grpc (Unit {0})
stopped_state =
    saved json_runtime two_event_grpc (Unit {0})
      (fan_out json_runtime two_event_grpc (Unit {0}) (logged 0) live_start)

stopped-Run :
    Run json_runtime two_event_grpc
      (Unit {0})
      (dead_letters two_event_grpc)
      []
      config
      connecting
      1000
      live_start
      returned
      1000
      stopped_state
unfolding subscribe_all_from
stopped-Run = after (subscribe 1000 live_start both_events subscribed) (
    after (receive 1000 live_start (logged 0) (deliver (logged 1 ∷ [])))
      (after (stop_dispatching 1000 _ _ (logged 0) (deliver (logged 1 ∷ []))) here))

Run-delay_example : 1000 ≤ 30000
Run-delay_example =
    Run-delay json_runtime two_event_grpc (Unit {0}) (dead_letters two_event_grpc) [] config
      (omega arith) stopped-Run (omega arith)

-- All that the two-event server delivers is its log.
live_events-deliver : (l : List Logged) → live_events (deliver l) ≡ l
unfolding live_events
live_events-deliver [] = refl
live_events-deliver (r ∷ rs) = ap (λ l. r ∷ l) (live_events-deliver rs)

delivered :
    (p : ℕ) (stream : List (Item json_runtime))
    → (two_event_grpc.subscribe_all p tt).0 ≡ ok stream
    → from_position p global_log ≡ live_events stream ++ []
delivered p stream h =
    let same : deliver (from_position p global_log) ≡ stream = cc in
    rw (← same) (sym (append-nil _ ∙ live_events-deliver (from_position p global_log)))

pub global_log-IsHistory : IsHistory json_runtime two_event_grpc global_log
global_log-IsHistory = record {
  short = (omega arith, (omega arith, tt));
  delivers = λ p w stream h. ([], delivered p stream h);
}

abbrev pub HoldsHere : Live json_runtime two_event_grpc (Unit {0}) → Type 1
HoldsHere =
    Holds json_runtime two_event_grpc (Unit {0}) (dead_letters two_event_grpc) [] config counting
      global_log
      (IsBehindHistory json_runtime two_event_grpc (Unit {0}) (dead_letters two_event_grpc) []
        config counting global_log)

pub start-Holds : HoldsHere live_start
unfolding consume apply_recorded_event default_checkpoint decode_stored_event next_u64
start-Holds = (
  [],
  [],
  reader,
  refl,
  record { seen = logged 0 ∷ []; rest = logged 1 ∷ []; whole = refl; here = refl },
)

pub manager-Holds :
    Emitted.Holds json_runtime two_event_grpc
      (Unit {0})
      (dead_letters two_event_grpc)
      []
      config
      replying
      global_log
      0
      (Emitted.IsBehindHistory json_runtime two_event_grpc
        (Unit {0})
        (dead_letters two_event_grpc)
        []
        config
        replying
        global_log
        0)
      []
      live_start
unfolding consume ProcessManager.default_checkpoint
manager-Holds = (
  [],
  [],
  replier,
  refl,
  refl,
  record { seen = []; rest = global_log; whole = refl; here = refl },
)
