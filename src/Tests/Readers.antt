-- ===== src/Tests/Readers.antt =====
-- A server whose global log holds two events, and a projection and a process manager that read it.
use eventfold_es.Prelude.{
  ℕ, ◌+◌, ◌≡◌, refl, sym, ◌∙◌, ap, Option, none, some, List, [], ◌∷◌, ◌++◌, append-nil, ok, err,
  arith,
}
use eventfold_es.Command.{CommandEnvelope, default}
use eventfold_es.Event.{RecordedEvent}
use eventfold_es.Client.{Grpc}
use eventfold_es.Client.Proto.{event, caught_up}
use eventfold_es.Cursor.{Item, from_position, events_of}
use eventfold_es.GlobalLog.{IsGlobalLog}
use eventfold_es.Projection.{Projection}
use eventfold_es.ProcessManager.{ProcessManager}
use eventfold_es.Store.{DeadLetters}
use eventfold_es.Tests.Json.{Document, json_runtime, document, checkpoint, blank}

abbrev pub Logged : Type 0
Logged = RecordedEvent json_runtime

abbrev pub logged : ℕ → Logged
logged position = record {
  event_id = "id";
  stream_id = "stream";
  stream_version = position;
  global_position = position;
  event_type = "Incremented";
  metadata = document (
      json_runtime.object (
        ("aggregate_type", json_runtime.text "counter")
        ∷ ("instance_id", json_runtime.text "c-1")
        ∷ []));
  payload = blank;
  recorded_at = 0;
}

abbrev pub global_log : List Logged
global_log = logged 0 ∷ logged 1 ∷ []

abbrev pub stream_item : Logged → Item json_runtime
stream_item r = ok (record { content = some (event r) })

-- All events, then the catch-up.
abbrev pub deliver : List Logged → List (Item json_runtime)
deliver [] = ok (record { content = some caught_up }) ∷ []
deliver (r ∷ rs) = stream_item r ∷ deliver rs

abbrev pub two_event_grpc : Grpc json_runtime
two_event_grpc = record {
  W = Unit {0};
  append = λ _ w. (err (json_runtime.internal "read only"), w);
  read_stream = λ _ w. (ok [], w);
  subscribe_all = λ p w. (ok (deliver (from_position p global_log)), w);
}

events_of-deliver : (l : List Logged) → events_of (deliver l) ≡ l
unfolding events_of
events_of-deliver [] = refl
events_of-deliver (r ∷ rs) = ap (λ l. r ∷ l) (events_of-deliver rs)

pub delivers :
    (p : ℕ) (stream : List (Item json_runtime))
    → (two_event_grpc.subscribe_all p tt).0 ≡ ok stream
    → from_position p global_log ≡ events_of stream ++ []
delivers p stream h =
    let same : deliver (from_position p global_log) ≡ stream = cc in
    rw (← same) (sym (append-nil _ ∙ events_of-deliver (from_position p global_log)))

unfoldable pub two_event_log : IsGlobalLog json_runtime two_event_grpc
two_event_log = record {
  log = λ _. global_log;
  short = λ _. (omega arith, (omega arith, tt));
  after_subscribe = λ p w stream h. ([], [], [], refl, delivers p stream h, λ _. refl);
  after_failed_subscribe = λ p w status h. cc;
}

abbrev pub read_checkpoint : Document → Option (ℕ × ℕ)
read_checkpoint blank = none
read_checkpoint (document j) = none
read_checkpoint (checkpoint s p) = some (s, p)

-- A projection that counts events.
abbrev pub counting : Projection json_runtime
counting = record {
  name = "counting";
  State = ℕ;
  default = 0;
  apply = λ s _. s + 1;
  to_string_pretty = λ s p. ok (checkpoint s p);
  from_str = read_checkpoint;
}

abbrev pub reply : CommandEnvelope json_runtime
reply = record {
  aggregate_type = "ledger";
  instance_id = "l-1";
  command = json_runtime.null;
  context = default json_runtime;
}

-- A process manager that counts events and answers each with one command.
abbrev pub replying : ProcessManager json_runtime
replying = record {
  name = "replying";
  State = ℕ;
  default = 0;
  react = λ s _. (s + 1, reply ∷ []);
  to_string_pretty = λ s p. ok (checkpoint s p);
  from_str = read_checkpoint;
}

abbrev pub dead_letters : (G : Grpc json_runtime) → DeadLetters json_runtime G
dead_letters G = record {
  now = λ _. 0;
  entry_json = λ envelope message time. ok blank;
  join_lines = λ before line. line;
}
