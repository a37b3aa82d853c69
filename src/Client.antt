-- ===== src/Client.antt =====
-- src/client.rs: the typed client over the generated gRPC stubs, which are parameters.
pub mod Proto
pub mod Transport
use eventfold_es.Prelude.{
  ℕ, Bool, ◌≡◌, Option, none, some, List, [], map, Result, ok, err, if◌then◌else◌,
}
use eventfold_es.Runtime.{Runtime}
use eventfold_es.Event.{ProposedEventData, RecordedEvent, metadata_value}
use Proto
use Proto.{
  Kind, ExpectedVersion, ProposedEvent, AppendRequest, AppendResponse, ReadStreamRequest,
  SubscribeResponse,
}

pub data ExpectedVersionArg : Type 0 where
  any : ExpectedVersionArg
  no_stream : ExpectedVersionArg
  exact : ℕ → ExpectedVersionArg

abbrev to_proto : ExpectedVersionArg → ExpectedVersion
to_proto any = record { kind = some Kind.any }
to_proto no_stream = record { kind = some Kind.no_stream }
to_proto (exact v) = record { kind = some (Kind.exact v) }

-- serde_json::to_vec(..).unwrap_or_default()
unfoldable pub to_vec_or_default : (X : Runtime) → X.Value → X.Bytes
to_vec_or_default X v = elim (X.to_vec v) [ none ↦ X.empty | some b ↦ b ]

unfoldable pub to_proto_event : (X : Runtime) → ProposedEventData X → ProposedEvent X
unfolding to_vec_or_default
to_proto_event X p = record {
  event_id = X.show_uuid p.event_id;
  event_type = p.event_type;
  metadata = to_vec_or_default X (metadata_value X p.metadata);
  payload = to_vec_or_default X p.payload;
}

-- The generated stubs of both transports, plain and authenticated, over the outside world `W`:
-- the server, its other clients and the network.
pub record Grpc (X : Runtime) : Type 1 where
  pub W : Type 0
  pub append : AppendRequest X → W → Result AppendResponse X.Status × W
  pub read_stream : ReadStreamRequest → W → Result (List (RecordedEvent X)) X.Status × W
  pub subscribe_all : ℕ → W → Result (List (Result (SubscribeResponse X) X.Status)) X.Status × W

-- An `await?` that goes on with what it got.
missing_is_empty : (X : Runtime) {A : Type 0} → Result (List A) X.Status → Result (List A) X.Status
missing_is_empty X (ok events) = ok events
missing_is_empty X (err status) = if X.not_found status then ok [] else err status

module _ (X : Runtime) (G : Grpc X) where
  unfoldable pub append :
      X.Uuid
      → ExpectedVersionArg
      → List (ProposedEventData X)
      → G.W
      → Result AppendResponse X.Status × G.W
  append stream_id expected events = G.append (record {
    stream_id = X.show_uuid stream_id;
    expected_version = some (to_proto expected);
    events = map (to_proto_event X) events;
  })

  -- A stream that has never been written to reads as empty.
  unfoldable pub read_stream : X.Uuid → ℕ → ℕ → G.W → Result (List (RecordedEvent X)) X.Status × G.W
  unfolding missing_is_empty
  read_stream stream_id from_version max_count w =
      let (result, w') =
        G.read_stream
          (record {
            stream_id = X.show_uuid stream_id;
            from_version = from_version;
            max_count = max_count;
          })
          w in
      (missing_is_empty X result, w')

  unfoldable pub subscribe_all_from :
      ℕ → G.W → Result (List (Result (SubscribeResponse X) X.Status)) X.Status × G.W
  subscribe_all_from from_position = G.subscribe_all from_position
