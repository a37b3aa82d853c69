-- ===== src/Tests/TogetherExamples.antt =====
-- The live loop receives one event, and its process manager catches up beside it.
use eventfold_es.Prelude.{◌≡◌, refl, [], ◌∷◌, ok, next_u64}
use eventfold_es.Event.{decode_stored_event}
use eventfold_es.Client.{subscribe_all_from}
use eventfold_es.Cursor.{from_position}
use eventfold_es.ProcessManager
use eventfold_es.Store.{erase_pm, react_event}
use eventfold_es.Live.{Live, react_all}
use eventfold_es.Live.Loop.{
  connecting, returned, saved, fan_out, subscribe, receive, stop_dispatching,
}
use eventfold_es.Live.Loop.Emitted.{Holds, IsBehindHistory}
use eventfold_es.Live.Loop.Together.{
  catch_up_at, pulled, read, reads, JointRun, loop_steps, pulls, at_rest, then_on, AllSucceed,
  emitted_jointly,
}
use eventfold_es.Live.Loop.Together.Reads.{JointRun-IsBehind}
use eventfold_es.Live.Loop.Together.Emits.{JointRun-emitted_jointly}
use eventfold_es.Tests.Json.{json_runtime}
use eventfold_es.Tests.Readers.{
  logged, deliver, global_log, two_event_grpc, replying, reply, counting, dead_letters,
}
use eventfold_es.Tests.LiveExamples.{
  config, live_start, both_events, subscribed, manager-Holds, HoldsHere, start-Holds,
  global_log-IsHistory,
}

abbrev received : Live json_runtime two_event_grpc (Unit {0})
received = fan_out json_runtime two_event_grpc (Unit {0}) (logged 0) live_start

-- The catch-up reads the second event, which the loop has not received yet.
caught-second :
    (catch_up_at json_runtime two_event_grpc 0 received.process_managers tt).0.0 ≡ ok (reply ∷ [])
unfolding catch_up_at fan_out react_all erase_pm react_event ProcessManager.catch_up
    ProcessManager.process_stream ProcessManager.react_recorded_event subscribe_all_from
    from_position decode_stored_event next_u64
caught-second = refl

abbrev caught : Live json_runtime two_event_grpc (Unit {0})
caught =
    pulled json_runtime two_event_grpc (Unit {0}) (dead_letters two_event_grpc) [] config 0 received

-- The projection is read, too.
abbrev seen : Live json_runtime two_event_grpc (Unit {0})
seen = read json_runtime two_event_grpc (Unit {0}) (dead_letters two_event_grpc) [] config 0 caught

abbrev stopped : Live json_runtime two_event_grpc (Unit {0})
stopped = saved json_runtime two_event_grpc (Unit {0}) seen

joint_run :
    JointRun json_runtime two_event_grpc
      (Unit {0})
      (dead_letters two_event_grpc)
      []
      config
      connecting
      1000
      live_start
      returned
      1000
      stopped
unfolding subscribe_all_from
joint_run = then_on (loop_steps (subscribe 1000 live_start both_events subscribed)) (
    then_on (loop_steps (receive 1000 live_start (logged 0) (deliver (logged 1 ∷ [])))) (
      then_on (pulls _ 1000 received 0 (reply ∷ []) caught-second) (
        then_on (reads _ 1000 caught 0) (
          then_on (loop_steps (stop_dispatching 1000 seen _ (logged 0) (deliver (logged 1 ∷ []))))
            at_rest))))

all_succeed :
    AllSucceed json_runtime two_event_grpc
      (Unit {0})
      (dead_letters two_event_grpc)
      []
      config
      0
      joint_run
unfolding joint_run
all_succeed = (tt, (tt, (tt, (tt, (tt, tt)))))

JointRun-emitted_jointly_example :
    Holds json_runtime two_event_grpc
      (Unit {0})
      (dead_letters two_event_grpc)
      []
      config
      replying
      global_log
      0
      (IsBehindHistory json_runtime two_event_grpc
        (Unit {0})
        (dead_letters two_event_grpc)
        []
        config
        replying
        global_log
        0)
      (emitted_jointly json_runtime two_event_grpc
        (Unit {0})
        (dead_letters two_event_grpc)
        []
        config
        0
        joint_run
        [])
      stopped
JointRun-emitted_jointly_example =
    JointRun-emitted_jointly json_runtime two_event_grpc (Unit {0}) (dead_letters two_event_grpc) []
      config replying global_log 0 global_log-IsHistory [] joint_run all_succeed manager-Holds

JointRun-IsBehind_example : HoldsHere stopped
JointRun-IsBehind_example =
    JointRun-IsBehind json_runtime two_event_grpc (Unit {0}) (dead_letters two_event_grpc) [] config
      counting global_log global_log-IsHistory joint_run start-Holds
