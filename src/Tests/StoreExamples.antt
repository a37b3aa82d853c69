-- ===== src/Tests/StoreExamples.antt =====
-- The theorems on opening a store and reading its projections, on the live handle, on the layout and
-- on the interceptor.
use eventfold_es.Prelude.{
  All, ℕ, String, ◌≡◌, ◌≤◌, refl, sym, ap, ◌∙◌, true, Option, none, some, List, [], ◌∷◌, ◌++◌,
  Result, ok, err, length, inl, inr, Option-cases, Result-cases,
}
use eventfold_es.Runtime.{entry}
use eventfold_es.Event.{RecordedEvent}
use eventfold_es.Cursor.{Item, consume, from_position}
use eventfold_es.GlobalLog.{IsBehind-start, is_caught_up}
use eventfold_es.Io.{
  ErrorKind, not_found, already_exists, invalid_data, other, os, IoError, Disk, FilePath, join,
  read, next_fault,
}
use eventfold_es.Map.{insert, without}
use eventfold_es.Projection
use eventfold_es.Projection.{
  Projection, ProjectionCheckpoint, ProjectionRunner, default_checkpoint, load_checkpoint,
  save_checkpoint, parse_checkpoint, text_of, checkpoint_path,
}
use eventfold_es.Projection.Stream.{projection_cursor}
use eventfold_es.Projection.Exact.{IsAt}
use eventfold_es.Store.Views.{AnyOf, erase, Views, projection}
use eventfold_es.Store.Views.Rebuild.{saved_as, projection-rebuild}
use eventfold_es.Store.Builder
use eventfold_es.Store.Builder.{
  Transport, AggregateStoreBuilder, AggregateStore, opened, open_store,
}
use eventfold_es.Store.Builder.Registered.{IsReader, projection_factory-IsReader}
use eventfold_es.Store.Builder.Opened.{open_store-projection}
use eventfold_es.Live
use eventfold_es.Snapshot.{snapshot_path}
use eventfold_es.Storage.{StreamLayout, projections_dir, process_managers_dir}
use eventfold_es.Storage.Apart.{save_checkpoint-apart}
use eventfold_es.Store.Control.Once.{Call, start, stop, calls, calls-once}
use eventfold_es.Auth.{Metadata}
use eventfold_es.Tests.Json.{json_runtime, Document}
use eventfold_es.Tests.Readers.{global_log, two_event_grpc, two_event_log, counting, deliver}

abbrev numbers : AnyOf ℕ ℕ
numbers = record { into = λ n. n; downcast = some }

abbrev no_files : Disk Document
no_files = record { files = λ _. none; faults = [] }

abbrev counter_dir : FilePath
counter_dir = "data" ∷ "projections" ∷ "counting" ∷ []

abbrev new_runner : ProjectionRunner json_runtime counting
new_runner = record {
  checkpoint = default_checkpoint json_runtime counting;
  checkpoint_dir = counter_dir;
}

abbrev opened_store : AggregateStore json_runtime two_event_grpc ℕ (Unit {0})
opened_store = record {
  base_dir = "data" ∷ [];
  projections = ("counting", erase json_runtime two_event_grpc ℕ counting numbers new_runner) ∷ [];
  process_managers = [];
  dispatchers = [];
  idle_timeout = 300000;
  live_config = Live.default;
  live_handle = none;
}

abbrev views : Views json_runtime two_event_grpc ℕ
views = record { projections = opened_store.projections; world = tt; disk = no_files }

abbrev all_events : List (Item json_runtime)
all_events = deliver global_log

all_events-caught_up : is_caught_up all_events ≡ true
unfolding is_caught_up
all_events-caught_up = refl

all_subscribed :
    (two_event_grpc.subscribe_all new_runner.checkpoint.last_global_position tt).0 ≡ ok all_events
unfolding default_checkpoint from_position
all_subscribed = refl

registered :
    entry "counting" opened_store.projections
    ≡ some (erase json_runtime two_event_grpc ℕ counting numbers new_runner)
unfolding entry
registered = refl

projection-rebuild_example :
    (before : List (RecordedEvent json_runtime)) × (c : ProjectionCheckpoint json_runtime counting)
    × (c
        ≡ consume
            (projection_cursor json_runtime counting)
            (default_checkpoint json_runtime counting)
            (global_log ++ before))
    × ((projection json_runtime two_event_grpc ℕ counting numbers views).0
        ≡ saved_as (save_checkpoint json_runtime counting counter_dir c no_files).0 c.state)
unfolding two_event_log
projection-rebuild_example =
    projection-rebuild json_runtime counting two_event_grpc ℕ numbers (λ s. refl) two_event_log
      views new_runner all_events registered all_subscribed all_events-caught_up
      (IsBehind-start (projection_cursor json_runtime counting)
        (default_checkpoint json_runtime counting) global_log)

-- A builder for a store with that projection.
abbrev transport : Transport json_runtime two_event_grpc
transport = record {
  Error = String;
  connect = λ url w. (ok tt, w);
  connect_with_token = λ url token w. (ok tt, w);
  temp_dir = "tmp" ∷ [];
}

abbrev Factories : Type 1
Factories = List (String × Builder.ProjectionFactory json_runtime two_event_grpc ℕ (Unit {0}))

-- The projection registered once.
abbrev once : Factories
once =
    (
      "counting",
      Builder.projection_factory json_runtime two_event_grpc ℕ (Unit {0}) counting numbers,
    )
    ∷ []

-- It is registered twice; the second registration is the one that counts.
abbrev builder : AggregateStoreBuilder json_runtime two_event_grpc ℕ (Unit {0})
builder = Builder.projection json_runtime two_event_grpc ℕ (Unit {0}) counting numbers (
    Builder.projection json_runtime two_event_grpc ℕ (Unit {0}) counting numbers (
      Builder.base_dir json_runtime two_event_grpc ℕ (Unit {0}) ("data" ∷ [])
        (Builder.new json_runtime two_event_grpc ℕ (Unit {0}))))

once-IsReader : All (IsReader json_runtime two_event_grpc ℕ (Unit {0})) once
once-IsReader =
    (projection_factory-IsReader json_runtime two_event_grpc ℕ (Unit {0}) counting numbers, tt)

listed : builder.projection_factories ≡ once ++ once
unfolding Builder.projection Builder.base_dir Builder.new
listed = refl

store_opened :
    (open_store json_runtime two_event_grpc ℕ (Unit {0}) transport builder tt no_files).0.0
    ≡ opened opened_store
unfolding open_store Builder.projection Builder.base_dir Builder.new Projection.new load_checkpoint
    read insert without
store_opened = refl

-- What a runner finds on that disk, whether it can be read or not.
unreadable :
    (kind : ErrorKind) (m : String) (found : Option (ProjectionCheckpoint json_runtime counting))
    → parse_checkpoint json_runtime counting (err (record { kind = kind; message = m })) ≡ ok found
    → found ≡ none
unfolding parse_checkpoint
unreadable not_found m found h = cc
unreadable already_exists m found h = cc
unreadable invalid_data m found h = cc
unreadable other m found h = cc
unreadable (os n) m found h = cc

nothing_loaded :
    (dir : FilePath) (d : Disk Document)
    (found : Option (ProjectionCheckpoint json_runtime counting))
    → d.files ≡ no_files.files
    → (load_checkpoint json_runtime counting dir d).0 ≡ ok found
    → found ≡ none
unfolding load_checkpoint read
nothing_loaded dir d found same h = elim (Option-cases (next_fault d.faults).0) [
  | inr (x, e) ↦ unreadable x.error.kind x.error.message found (rw (e, load_checkpoint, read) at h)
  | inl e ↦
      let gone : d.files (checkpoint_path dir) ≡ none = ap (λ f. f (checkpoint_path dir)) same in
      cc (rw (e, gone, load_checkpoint, read) at h)
]

starts :
    (dir : FilePath) (d : Disk Document) (runner : ProjectionRunner json_runtime counting)
    → d.files ≡ no_files.files
    → (Projection.new json_runtime counting dir d).0 ≡ ok runner
    → runner.checkpoint ≡ default_checkpoint json_runtime counting
unfolding Projection.new
starts dir d runner same h = elim (Result-cases (load_checkpoint json_runtime counting dir d).0) [
  | inr (e_, e) ↦ cc (rw (e, Projection.new) at h)
  | inl (found, e) ↦
      let none_found = nothing_loaded dir d found same e in
      let e' : (load_checkpoint json_runtime counting dir d).0 ≡ ok none = e ∙ ap ok none_found in
      ap
        (λ (x : Result (ProjectionRunner json_runtime counting) IoError). elim x [
          | ok r ↦ r.checkpoint
          | err _ ↦ default_checkpoint json_runtime counting
        ])
        (sym (rw (e', Projection.new) at h))
]

ready :
    (d : Disk Document) (runner : ProjectionRunner json_runtime counting)
    → d.files ≡ no_files.files
    → (Projection.new json_runtime counting counter_dir d).0 ≡ ok runner
    → IsAt json_runtime counting two_event_grpc two_event_log tt runner
      × ((stream : List (Item json_runtime)) × ((two_event_grpc.subscribe_all
              runner.checkpoint.last_global_position tt).0
            ≡ ok stream)
          × (is_caught_up stream ≡ true))
unfolding two_event_log
ready d runner same h = rw (starts counter_dir d runner same h) (
  IsBehind-start (projection_cursor json_runtime counting)
      (default_checkpoint json_runtime counting) global_log,
  (all_events, all_subscribed, all_events-caught_up),
)

open_store-projection_example :
    (more : List (RecordedEvent json_runtime)) × (c : ProjectionCheckpoint json_runtime counting)
    × (c
        ≡ consume
            (projection_cursor json_runtime counting)
            (default_checkpoint json_runtime counting)
            (global_log ++ more))
    × ((projection json_runtime two_event_grpc ℕ counting numbers views).0
        ≡ saved_as (save_checkpoint json_runtime counting counter_dir c no_files).0 c.state)
unfolding two_event_log entry
open_store-projection_example =
    open_store-projection json_runtime two_event_grpc ℕ (Unit {0}) transport counting numbers
      (λ s. refl) two_event_log builder once [] tt tt no_files no_files opened_store listed
      once-IsReader refl ready store_opened

-- The handle: a start, a second start, and two shutdowns.
abbrev life : List Call
life = start 7 ∷ start 8 ∷ stop ∷ stop ∷ []

calls-once_example :
    (length (calls (λ _. ok (ok tt)) life none).spawned ≤ 1)
    × ((rest : List ℕ) × ((calls (λ _. ok (ok tt)) life none).spawned
          ≡ (calls (λ _. ok (ok tt)) life none).awaited ++ rest))
calls-once_example = calls-once (λ _. ok (ok tt)) life

abbrev layout : StreamLayout
layout = record { base_dir = "data" ∷ [] }

abbrev some_checkpoint : ProjectionCheckpoint json_runtime counting
some_checkpoint = record { state = 2; last_global_position = 9 }

abbrev saved_disk : Disk Document
saved_disk =
    (save_checkpoint json_runtime counting (join (projections_dir layout) "counting")
      some_checkpoint no_files).1

save_checkpoint-apart_example :
    (saved_disk.files (checkpoint_path (join (projections_dir layout) "totals"))
      ≡ no_files.files (checkpoint_path (join (projections_dir layout) "totals")))
    × (saved_disk.files (checkpoint_path (join (process_managers_dir layout) "counting"))
        ≡ no_files.files (checkpoint_path (join (process_managers_dir layout) "counting")))
    × (saved_disk.files (snapshot_path ("data" ∷ []) "counter" "c-1")
        ≡ no_files.files (snapshot_path ("data" ∷ []) "counter" "c-1"))
save_checkpoint-apart_example =
    save_checkpoint-apart json_runtime counting layout some_checkpoint no_files "totals" "counting"
      "counter" "c-1" (record { relative = refl; one = refl; ordinary = refl })
      (record { relative = refl; one = refl; ordinary = refl })
      (record { relative = refl; one = refl; ordinary = refl })
      (record { relative = refl; one = refl; ordinary = refl })
      (record { relative = refl; one = refl; ordinary = refl }) refl

-- A name that is no file name reaches the file of another: `Path::join` drops its `./`.
join-aliased : join (projections_dir layout) "./counting" ≡ join (projections_dir layout) "counting"
join-aliased = refl

join-replaced : join (projections_dir layout) "/tmp//x" ≡ "/" ∷ "tmp" ∷ "x" ∷ []
join-replaced = refl

-- A request that has a trace key, and a token.
abbrev traced : Metadata
traced = ("trace", "t-1") ∷ []
