-- ===== src/Tests/ActorExamples.antt =====
-- The theorems on the actor, at the counter on the one-event server and on the conflicting one.
use eventfold_es.Prelude.{
  next_u64, String, ℕ, ◌+◌, ◌≤◌, ◌≡◌, ◌⊎◌, refl, none, some, List, [], ◌∷◌, ◌++◌, ok, err, drop,
  arith,
}
use eventfold_es.Command.{CommandContext}
use eventfold_es.Event.{
  RecordedEvent, encode_domain_event, proposed, stream_name, stream_uuid, decode_stored_event,
  metadata_value,
}
use eventfold_es.Event.Stored.{decode_stored_event-recorded}
use eventfold_es.Error.{wrong_expected_version}
use eventfold_es.Client.{to_proto_event}
use eventfold_es.Io.{Disk, path_eq, write_via_rename, create_dir_all, write, rename, read}
use eventfold_es.Io.Atomic.{IsKept, IsReplaced}
use eventfold_es.Snapshot.{
  Snapshot, snapshot_dir, snapshot_tmp_path, snapshot_path, snapshot_json, save_snapshot,
  load_snapshot, parse_snapshot,
}
use eventfold_es.Snapshot.Files.{save_snapshot_atomic, load-save}
use eventfold_es.Actor.Execute.{
  Actor, Request, decode_domain_event, execute_with_retry, encode_all, apply_recorded, read_from,
  catch_up, all_proposed, add_proposed, attempt, expected_version,
}
use eventfold_es.Actor.Codec.{decode-encode}
use eventfold_es.Actor.Replay.{replay}
use eventfold_es.Actor.Coherence.{IsCoherent}
use eventfold_es.Actor.Submit.{IsCommitted}
use eventfold_es.Actor.Commit.{execute_with_retry-IsCoherent, execute_with_retry-IsCommitted}
use eventfold_es.Actor.Lifecycle.{
  Context, Task, running, execute, get_state, shutdown, run_actor, stop, catch_up_from,
  spawn_actor_with_store, save_snapshot_quietly,
}
use eventfold_es.Actor.Service.{run_actor-IsCoherent}
use eventfold_es.Actor.Spawn.{IsCurrent, catch_up_from-IsCurrent}
use eventfold_es.Actor.Restart.{IsSaved, restart-IsCurrent, restart_skips_first}
use eventfold_es.Actor.Conflict.{
  AlwaysConflicts, AlwaysDecides, execute_with_retry-conflict, execute_with_retry-appends,
}
use eventfold_es.Tests.Json.{json-ReadsBack, json_runtime, json_laws, Document, conflict}
use eventfold_es.Tests.Counter.{
  counter, counter-tagged, CounterEvent, incremented, decremented, added, increment,
}
use eventfold_es.Tests.Server.{
  Proposed, recorded, one_log, one_event_ops, one_event_server, conflict_ops,
}

abbrev context : CommandContext json_runtime
context = record {
  actor = some "alice";
  correlation_id = none;
  metadata = none;
  source_device = none;
}

abbrev request : Request json_runtime counter
request = record {
  stream_id = "counter/c-1";
  instance_id = "c-1";
  command = increment;
  context = context;
}

abbrev fresh : Actor json_runtime counter one_event_ops
fresh = record { store = none; state = 0; stream_version = none }

abbrev first_event : Proposed
first_event = record {
  event_id = "id";
  event_type = "Incremented";
  payload = json_runtime.null;
  metadata = record {
    aggregate_type = "counter";
    instance_id = "c-1";
    actor = some "alice";
    correlation_id = none;
    source_device = none;
  };
}

fresh-IsCoherent :
    IsCoherent json_runtime counter one_event_ops (one_event_server "counter/c-1") fresh
unfolding one_event_server replay
fresh-IsCoherent = record { seen = []; rest = []; log = refl; state = refl; version = refl }

first_command :
    (execute_with_retry json_runtime counter one_event_ops request fresh).0
    ≡ some (ok (incremented ∷ []))
unfolding execute_with_retry attempt encode_domain_event expected_version
first_command = refl

execute_with_retry-IsCommitted_example :
    IsCommitted json_runtime counter one_event_ops request
      (one_event_server "counter/c-1")
      (incremented ∷ [])
      (execute_with_retry json_runtime counter one_event_ops request fresh).1
execute_with_retry-IsCommitted_example =
    execute_with_retry-IsCommitted json_runtime counter one_event_ops request
      (one_event_server "counter/c-1") json_laws counter-tagged (incremented ∷ []) fresh
      fresh-IsCoherent first_command

execute_with_retry-IsCoherent_example :
    IsCoherent json_runtime counter one_event_ops
      (one_event_server "counter/c-1")
      (execute_with_retry json_runtime counter one_event_ops request fresh).1
execute_with_retry-IsCoherent_example =
    execute_with_retry-IsCoherent json_runtime counter one_event_ops request
      (one_event_server "counter/c-1") json_laws counter-tagged fresh fresh-IsCoherent

abbrev place : Context json_runtime
place = record { stream_id = "counter/c-1"; instance_id = "c-1"; base_dir = "data" ∷ [] }

abbrev empty_disk : Disk Document
empty_disk = record { files = λ _. none; faults = [] }

abbrev fresh_task : Task json_runtime counter one_event_ops
fresh_task = record { actor = fresh; disk = empty_disk; answers = []; progress = running }

run_actor-IsCoherent_example :
    IsCoherent json_runtime counter one_event_ops
      (one_event_server "counter/c-1")
      (run_actor json_runtime counter one_event_ops place
        (execute increment context ∷ get_state ∷ shutdown ∷ [])
        fresh_task).actor
run_actor-IsCoherent_example =
    run_actor-IsCoherent json_runtime counter one_event_ops place (one_event_server "counter/c-1")
      json_laws counter-tagged (execute increment context ∷ get_state ∷ shutdown ∷ []) fresh_task
      fresh-IsCoherent

-- A snapshot of one event, and the server that holds that event.
abbrev one_seen : Actor json_runtime counter one_event_ops
one_seen = record { store = some first_event; state = 1; stream_version = some 0 }

abbrev one_snapshot : Snapshot json_runtime counter
one_snapshot = record { state = 1; stream_version = 0 }

one_seen-IsCoherent :
    IsCoherent json_runtime counter one_event_ops (one_event_server "counter/c-1") one_seen
unfolding one_event_server replay decode_domain_event apply_recorded to_proto_event
one_seen-IsCoherent = record {
  seen = recorded first_event ∷ [];
  rest = [];
  log = refl;
  state = refl;
  version = refl;
}

catch_up_from-IsCurrent_example :
    IsCurrent json_runtime counter one_event_ops
      (one_event_server "counter/c-1")
      (some first_event)
      one_seen
unfolding catch_up_from catch_up next_u64 read_from
catch_up_from-IsCurrent_example =
    catch_up_from-IsCurrent json_runtime counter one_event_ops (one_event_server "counter/c-1")
      (some one_snapshot) (some first_event) one_seen one_seen-IsCoherent refl

-- Stopping and spawning again, on a disk that works.
abbrev seen_task : Task json_runtime counter one_event_ops
seen_task = record { actor = one_seen; disk = empty_disk; answers = []; progress = running }

seen_task-IsSaved : IsSaved json_runtime counter one_event_ops place seen_task
unfolding save_snapshot write_via_rename create_dir_all snapshot_json write rename
seen_task-IsSaved = record { round = λ b h. ground arith; saved = refl; quiet = refl }

fresh_task-IsSaved : IsSaved json_runtime counter one_event_ops place fresh_task
unfolding save_snapshot write_via_rename create_dir_all snapshot_json write rename
fresh_task-IsSaved = record { round = λ b h. ground arith; saved = refl; quiet = refl }

restart-IsCurrent_example :
    IsCurrent json_runtime counter one_event_ops
      (one_event_server "counter/c-1")
      (some first_event)
      one_seen
unfolding spawn_actor_with_store stream_name stream_uuid stop save_snapshot_quietly save_snapshot
    write_via_rename create_dir_all snapshot_json write rename load_snapshot parse_snapshot
    snapshot_path snapshot_tmp_path snapshot_dir path_eq read catch_up_from catch_up next_u64
    read_from decode_domain_event apply_recorded to_proto_event one_event_server
restart-IsCurrent_example =
    restart-IsCurrent json_runtime counter one_event_ops place (one_event_server "counter/c-1")
      seen_task 0 (some first_event) [] one_seen one_seen-IsCoherent refl seen_task-IsSaved refl
      refl

-- Another client has written the first event meanwhile: the new actor does not apply it.
abbrev stale : Actor json_runtime counter one_event_ops
stale = record { store = some first_event; state = 0; stream_version = some 0 }

restart_skips_first_example :
    (before later : List (RecordedEvent json_runtime)) × (one_log (some first_event)
      ≡ (one_log (some first_event) ++ before) ++ later)
    × (0 ≡ replay json_runtime counter 0 (drop 1 (one_log (some first_event) ++ before)))
unfolding spawn_actor_with_store stream_name stream_uuid one_event_server stop save_snapshot_quietly
    save_snapshot write_via_rename create_dir_all snapshot_json write rename load_snapshot
    parse_snapshot snapshot_path snapshot_tmp_path snapshot_dir path_eq read catch_up_from catch_up
    next_u64 read_from replay
restart_skips_first_example =
    restart_skips_first json_runtime counter one_event_ops place (one_event_server "counter/c-1")
      fresh_task (some first_event) stale fresh-IsCoherent refl fresh_task-IsSaved refl

decode-encode_example :
    decode_domain_event json_runtime counter (recorded first_event) ≡ some incremented
unfolding encode_domain_event
decode-encode_example =
    decode-encode json_runtime json_laws counter "id" incremented context "counter" "c-1"
      first_event (recorded first_event) (counter-tagged incremented) refl
      (record { event_id = refl; event_type = refl; metadata = refl; payload = refl })

-- The server that always conflicts.
always_conflicts : AlwaysConflicts json_runtime counter conflict_ops request
always_conflicts = record {
  refuses = λ expected ps w. (conflict, refl, refl);
  reads = λ from w. ([], refl);
}

one_encodes :
    (e : CounterEvent) (id : String)
    → (p : Proposed) × (encode_domain_event json_runtime counter id e context "counter" "c-1"
        ≡ proposed p)
unfolding encode_domain_event
one_encodes incremented id = (_, refl)
one_encodes decremented id = (_, refl)
one_encodes (added n) id = (_, refl)

all_encode :
    (es : List CounterEvent) (w : ℕ)
    → (ps : List Proposed) × ((encode_all json_runtime counter conflict_ops request es w).0
        ≡ all_proposed ps)
unfolding encode_all
all_encode [] w = ([], refl)
all_encode (e ∷ es) w =
    let (p, q) = one_encodes e "id" in
    let (ps, later) = all_encode es w in (p ∷ ps, rw (q, encode_all) (rw (later, add_proposed)))

always_decides : AlwaysDecides json_runtime counter conflict_ops request
always_decides = record { decides = λ s. (incremented, [], refl); encodes = all_encode }

execute_with_retry-conflict_example :
    (execute_with_retry json_runtime counter conflict_ops request
      (record { store = 0; state = 4; stream_version = some 7 })).0
    ≡ some (err wrong_expected_version)
execute_with_retry-conflict_example =
    execute_with_retry-conflict json_runtime counter conflict_ops request
      (record { store = 0; state = 4; stream_version = some 7 }) always_conflicts always_decides

execute_with_retry-appends_example :
    (execute_with_retry json_runtime counter conflict_ops request
      (record { store = 0; state = 4; stream_version = some 7 })).1.store
    ≤ 0 + 3
execute_with_retry-appends_example =
    execute_with_retry-appends json_runtime counter conflict_ops request (λ n. n)
      (record { appends = λ expected ps w. refl; reads = λ from w. refl; draws = λ w. refl })
      (record { store = 0; state = 4; stream_version = some 7 })

save_snapshot_atomic_example :
    IsKept
      (snapshot_path ("data" ∷ []) "counter" "c-1")
      empty_disk
      (save_snapshot json_runtime counter ("data" ∷ []) "c-1" one_snapshot empty_disk)
    ⊎ IsReplaced
        (snapshot_path ("data" ∷ []) "counter" "c-1")
        (snapshot_json json_runtime counter one_snapshot)
        (save_snapshot json_runtime counter ("data" ∷ []) "c-1" one_snapshot empty_disk)
save_snapshot_atomic_example =
    save_snapshot_atomic json_runtime counter ("data" ∷ []) "c-1" one_snapshot empty_disk

load-save_example :
    (load_snapshot json_runtime counter
      ("data" ∷ [])
      "c-1"
      (save_snapshot json_runtime counter ("data" ∷ []) "c-1" one_snapshot empty_disk).1).0
    ≡ ok (some one_snapshot)
unfolding save_snapshot write_via_rename create_dir_all snapshot_json write rename
load-save_example =
    load-save json_runtime counter ("data" ∷ []) "c-1" one_snapshot empty_disk (λ b h. ground arith)
      refl refl

decode_stored_event-recorded_example :
    decode_stored_event json_runtime (recorded first_event)
    ≡ some (record {
      event_id = "id";
      stream_id = "stream";
      aggregate_type = "counter";
      instance_id = "c-1";
      stream_version = 0;
      global_position = 0;
      event_type = "Incremented";
      payload = json_runtime.null;
      metadata = metadata_value json_runtime first_event.metadata;
      recorded_at = 0;
    })
unfolding to_proto_event
decode_stored_event-recorded_example =
    decode_stored_event-recorded json_runtime json_laws first_event (recorded first_event) "stream"
      refl refl (json-ReadsBack _)
      (record { event_id = refl; event_type = refl; metadata = refl; payload = refl }) refl
