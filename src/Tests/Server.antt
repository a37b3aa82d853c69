-- ===== src/Tests/Server.antt =====
-- Two servers for one stream: one that holds a single event, and one that always conflicts.
use eventfold_es.Prelude.{
  ℕ, String, suc, ◌+◌, ◌<◌, ◌≡◌, true, refl, sym, ◌∙◌, Option, none, some, List, [], ◌∷◌, ◌++◌,
  append-nil, Result, ok, err, arith, drop, length, u64_mod,
}
use eventfold_es.Event.{ProposedEventData, RecordedEvent}
use eventfold_es.Client.{ExpectedVersionArg, any, no_stream, to_proto_event}
use eventfold_es.Client.Proto.{AppendResponse}
use eventfold_es.Actor.Ops.{EventStoreOps}
use eventfold_es.Actor.Codec.{IsRecorded}
use eventfold_es.Actor.Server.{IsNumbered, AreRecorded, Permits, IsLogServer}
use eventfold_es.Actor.Fleet.{IsStore}
use eventfold_es.Tests.Json.{json_runtime, Failure, conflict}

abbrev pub Proposed : Type 0
Proposed = ProposedEventData json_runtime

abbrev pub Recorded : Type 0
Recorded = RecordedEvent json_runtime

abbrev pub recorded : Proposed → Recorded
recorded p = record {
  event_id = (to_proto_event json_runtime p).event_id;
  stream_id = "stream";
  stream_version = 0;
  global_position = 0;
  event_type = (to_proto_event json_runtime p).event_type;
  metadata = (to_proto_event json_runtime p).metadata;
  payload = (to_proto_event json_runtime p).payload;
  recorded_at = 0;
}

abbrev first_response : AppendResponse
first_response = record {
  first_stream_version = 0;
  last_stream_version = 0;
  first_global_position = 0;
  last_global_position = 0;
}

-- The stream takes one event, then refuses all.
abbrev pub append_one :
    ExpectedVersionArg
    → List Proposed
    → Option Proposed
    → Result AppendResponse Failure × Option Proposed
append_one any (p ∷ []) none = (ok first_response, some p)
append_one no_stream (p ∷ []) none = (ok first_response, some p)
append_one _ _ w = (err conflict, w)

abbrev pub one_log : Option Proposed → List Recorded
one_log none = []
one_log (some p) = recorded p ∷ []

abbrev pub one_event_ops : EventStoreOps json_runtime
one_event_ops = record {
  W = Option Proposed;
  append = λ _ expected ps w. append_one expected ps w;
  read_stream = λ _ from _ w. (ok (drop from (one_log w)), w);
  new_v4 = λ w. ("id", w);
}

pub one-IsNumbered : (w : Option Proposed) → IsNumbered json_runtime 0 (one_log w)
one-IsNumbered none = tt
one-IsNumbered (some p) = (refl, tt)

pub one_short : (w : Option Proposed) → length (one_log w) < u64_mod
one_short none = omega arith
one_short (some p) = omega arith

abbrev pub Appended : ExpectedVersionArg → List Proposed → Option Proposed → AppendResponse → Type 0
Appended expected ps w resp =
    (before own later : List Recorded) × (one_log (append_one expected ps w).1
      ≡ ((one_log w ++ before) ++ own) ++ later)
    × Permits expected (length (one_log w ++ before))
    × AreRecorded json_runtime ps own
    × (suc resp.last_stream_version ≡ length ((one_log w ++ before) ++ own))

same_record : (p : Proposed) → IsRecorded json_runtime p (recorded p)
same_record p = record { event_id = refl; event_type = refl; metadata = refl; payload = refl }

pub appended :
    (expected : ExpectedVersionArg) (ps : List Proposed) (w : Option Proposed)
    (resp : AppendResponse)
    → (append_one expected ps w).0 ≡ ok resp
    → Appended expected ps w resp
appended any (p ∷ []) none resp h =
    ([], recorded p ∷ [], [], refl, tt, (same_record p, tt), ground (arith, h))
appended no_stream (p ∷ []) none resp h =
    ([], recorded p ∷ [], [], refl, refl, (same_record p, tt), ground (arith, h))
appended _ _ _ resp h = cc

pub grows :
    (expected : ExpectedVersionArg) (ps : List Proposed) (w : Option Proposed)
    → (more : List Recorded) × (one_log (append_one expected ps w).1 ≡ one_log w ++ more)
grows any (p ∷ []) none = (recorded p ∷ [], refl)
grows no_stream (p ∷ []) none = (recorded p ∷ [], refl)
grows _ _ w = ([], sym (append-nil (one_log w)))

unfoldable pub one_event_server : (stream : String) → IsLogServer json_runtime one_event_ops stream
one_event_server stream = record {
  log = one_log;
  numbered = one-IsNumbered;
  short = one_short;
  after_new_v4 = λ w. ([], sym (append-nil (one_log w)));
  -- No append repeats an id, as only one succeeds.
  are_new = λ ids w. true;
  drawn-new = λ n w. refl;
  after_append = λ expected ps w resp new e. appended expected ps w resp e;
  append_grows = grows;
  after_read = λ from w events h. (
    [],
    [],
    sym (append-nil (one_log w ++ []) ∙ append-nil (one_log w)),
    cc (h, append-nil (one_log w)),
  );
  after_failed_read = λ from w status h. cc;
}

-- Seen as a server of many streams, each of which is the one stream.
unfoldable pub one_event_store : IsStore json_runtime one_event_ops
unfolding one_event_server
one_event_store = record {
  one = one_event_server;
  appends = λ other stream expected ps w. grows expected ps w;
  reads = λ other stream from w. ([], sym (append-nil (one_log w)));
}

-- Every append is refused, and counted.
abbrev pub conflict_ops : EventStoreOps json_runtime
conflict_ops = record {
  W = ℕ;
  append = λ _ _ _ n. (err conflict, n + 1);
  read_stream = λ _ _ _ n. (ok [], n);
  new_v4 = λ n. ("id", n);
}
