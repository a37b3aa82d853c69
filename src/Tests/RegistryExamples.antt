-- ===== src/Tests/RegistryExamples.antt =====
-- The theorems on a process's actors and on the handle cache, at the counter on the one-event server.
use eventfold_es.Prelude.{◌≡◌, refl, none, some, List, [], ◌∷◌, ok}
use eventfold_es.Runtime.{entry}
use eventfold_es.Command.{CommandEnvelope, default}
use eventfold_es.Event.{stream_uuid, encode_domain_event}
use eventfold_es.Io.{Disk, FilePath, read}
use eventfold_es.Map.{insert, without}
use eventfold_es.Snapshot.{load_snapshot, parse_snapshot}
use eventfold_es.Actor.Execute.{Actor, execute_with_retry, attempt, expected_version, catch_up}
use eventfold_es.Actor.Lifecycle.{
  get_state, spawn_actor_with_store, serve, catch_up_from, start_from,
}
use eventfold_es.Actor.Replay.{replay}
use eventfold_es.Actor.Handle.{at, put, woken, asleep, is_running, receive, handle_execute}
use eventfold_es.Actor.Fleet.{AreCoherent}
use eventfold_es.Store.Registry.{
  Registry, get, dispatch, cached, cache_spawned, spawn, evict, meanwhile, keep, cell_of,
}
use eventfold_es.Store.Registry.Tidy.{IsTidy, get-IsTidy}
use eventfold_es.Store.Registry.Get.{IsLoadable, get-AreCoherent}
use eventfold_es.Store.Registry.Dispatch.{HasCommitted, dispatch-IsCommitted}
use eventfold_es.Tests.Json.{json_runtime, json_laws, Document}
use eventfold_es.Tests.Counter.{counter, counter-tagged, CounterCommand, CounterEvent}
use eventfold_es.Tests.Server.{one_event_ops, one_event_server, one_event_store}

abbrev blank_disk : Disk Document
blank_disk = record { files = λ _. none; faults = [] }

abbrev pub no_actors : Registry json_runtime counter one_event_ops
no_actors = record { cache = []; fleet = record { cells = []; world = none; disk = blank_disk } }

abbrev pub data_dir : FilePath
data_dir = "data" ∷ []

no_actors-IsTidy : IsTidy json_runtime counter one_event_ops data_dir no_actors
unfolding at entry
no_actors-IsTidy = record { running_cached = λ handle c e q. cc; names = λ id handle e. cc }

get-IsTidy_example :
    IsTidy json_runtime counter one_event_ops data_dir
      (get json_runtime counter one_event_ops data_dir "c-1" no_actors).1
get-IsTidy_example =
    get-IsTidy json_runtime counter one_event_ops data_dir "c-1" no_actors no_actors-IsTidy

first_handle : (get json_runtime counter one_event_ops data_dir "c-1" no_actors).0 ≡ ok 0
unfolding get entry cached cache_spawned spawn spawn_actor_with_store load_snapshot read evict
first_handle = refl

-- Nothing is on the disk, so an actor starts from the initial state.
pub empty-IsLoadable :
    IsLoadable json_runtime counter one_event_ops data_dir one_event_store "c-1" no_actors.fleet
unfolding one_event_store one_event_server load_snapshot read replay
empty-IsLoadable none h = record { seen = []; rest = []; log = refl; state = refl; version = refl }
empty-IsLoadable (some snapshot) h = cc

spawned-AreCoherent :
    AreCoherent json_runtime counter one_event_ops one_event_store
      (get json_runtime counter one_event_ops data_dir "c-1" no_actors).1.fleet
spawned-AreCoherent =
    get-AreCoherent json_runtime counter one_event_ops data_dir one_event_store "c-1" no_actors
      empty-IsLoadable tt

abbrev envelope : CommandEnvelope json_runtime
envelope = record {
  aggregate_type = "counter";
  instance_id = "c-1";
  command = json_runtime.text "Increment";
  context = default json_runtime;
}

dispatched :
    (dispatch json_runtime counter one_event_ops data_dir
      ((0, get_state) ∷ [])
      envelope
      no_actors).0
    ≡ ok tt
unfolding dispatch get cached entry cache_spawned spawn spawn_actor_with_store load_snapshot read
    evict handle_execute receive serve execute_with_retry attempt encode_domain_event
    expected_version catch_up catch_up_from start_from parse_snapshot keep cell_of meanwhile insert
    without at put is_running woken asleep
dispatched = refl

dispatch-IsCommitted_example :
    (cmd : CounterCommand) × (es : List CounterEvent) × (a : Actor json_runtime counter
      one_event_ops)
    × (counter.command_from_value envelope.command ≡ ok cmd)
    × HasCommitted json_runtime counter one_event_ops one_event_store json_laws counter-tagged
        (stream_uuid json_runtime "counter" "c-1")
        "c-1"
        cmd
        (default json_runtime)
        es
        a
    × (a.store
        ≡ (dispatch json_runtime counter one_event_ops data_dir
            ((0, get_state) ∷ [])
            envelope
            no_actors).1.fleet.world)
dispatch-IsCommitted_example =
    dispatch-IsCommitted json_runtime counter one_event_ops one_event_store json_laws counter-tagged
      data_dir ((0, get_state) ∷ []) envelope no_actors no_actors-IsTidy empty-IsLoadable tt
      dispatched
