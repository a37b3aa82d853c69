-- ===== src/Event.antt =====
-- src/event.rs: stream names, event metadata, and the codec between domain, proposed and
-- recorded events; and the RecordedEvent message of proto/eventfold.proto.
pub mod Stored
use Prim.Native.String.{◌++◌ as str_append}
use eventfold_es.Prelude.{
  ℕ, String, Option, none, some, List, [], ◌∷◌, ◌++◌, str_eq, ok, err, ◌>>=◌, if◌then◌else◌,
}
use eventfold_es.Runtime.{Runtime, from_utf8}
use eventfold_es.Command.{CommandContext}
use eventfold_es.Aggregate.{Aggregate}

-- The bytes of STREAM_NAMESPACE.
abbrev stream_namespace_bytes : List ℕ
stream_namespace_bytes =
    0x9a ∷ 0x1e ∷ 0x7c ∷ 0x3b ∷ 0x4d ∷ 0x2f ∷ 0x4a ∷ 0x8e ∷ 0xb5 ∷ 0x6c ∷ 0x1f ∷ 0x3d ∷ 0x7e ∷ 0x9a
    ∷ 0x0b ∷ 0xc4 ∷ []

-- format!("{aggregate_type}/{instance_id}")
unfoldable pub stream_name : String → String → String
stream_name aggregate_type instance_id = str_append aggregate_type (str_append "/" instance_id)

unfoldable pub stream_uuid : (X : Runtime) → String → String → X.Uuid
stream_uuid X aggregate_type instance_id =
    X.new_v5 (X.namespace stream_namespace_bytes) (stream_name aggregate_type instance_id)

pub record EventMetadata : Type 0 where
  pub aggregate_type : String
  pub instance_id : String
  pub actor : Option String
  pub correlation_id : Option String
  pub source_device : Option String

pub record ProposedEventData (X : Runtime) : Type 0 where
  pub event_id : X.Uuid
  pub event_type : String
  pub payload : X.Value
  pub metadata : EventMetadata

-- The message of proto/eventfold.proto.
pub record RecordedEvent (X : Runtime) : Type 0 where
  pub event_id : String
  pub stream_id : String
  pub stream_version : ℕ
  pub global_position : ℕ
  pub event_type : String
  pub metadata : X.Bytes
  pub payload : X.Bytes
  pub recorded_at : ℕ

pub record StoredEvent (X : Runtime) : Type 0 where
  pub event_id : X.Uuid
  pub stream_id : X.Uuid
  pub aggregate_type : String
  pub instance_id : String
  pub stream_version : ℕ
  pub global_position : ℕ
  pub event_type : String
  pub payload : X.Value
  pub metadata : X.Value
  pub recorded_at : ℕ

-- `#[serde(skip_serializing_if = "Option::is_none")]`
unfoldable pub optional_field : (X : Runtime) → String → Option String → List (String × X.Value)
optional_field X k none = []
optional_field X k (some s) = (k, X.text s) ∷ []

-- The derived Serialize of EventMetadata.
unfoldable pub metadata_value : (X : Runtime) → EventMetadata → X.Value
unfolding optional_field
metadata_value X m = X.object (
    ("aggregate_type", X.text m.aggregate_type)
    ∷ ("instance_id", X.text m.instance_id)
    ∷ (optional_field X "actor" m.actor
        ++ (optional_field X "correlation_id" m.correlation_id
            ++ optional_field X "source_device" m.source_device)))

-- The result of `encode_domain_event`: a serde error is a value, a failed `expect` a panic.
pub data Encoded (X : Runtime) : Type 0 where
  proposed : ProposedEventData X → Encoded X
  serde_error : String → Encoded X
  panicked : Encoded X

-- obj["type"].as_str()
unfoldable pub event_type_of : (X : Runtime) → X.Value → Option String
event_type_of X v = X.get v "type" >>= X.as_str

-- obj.get("data").cloned().unwrap_or(Value::Null)
payload_of : (X : Runtime) → X.Value → X.Value
payload_of X v = elim (X.get v "data") [ none ↦ X.null | some d ↦ d ]

module _ (X : Runtime) (A : Aggregate X) where
  -- `event_id` is what `Uuid::new_v4` returned.
  unfoldable pub encode_domain_event :
      X.Uuid → A.DomainEvent → CommandContext X → String → String → Encoded X
  unfolding event_type_of payload_of
  encode_domain_event event_id event ctx aggregate_type instance_id = elim (A.to_value event) [
    | err e ↦ serde_error e
    | ok value ↦ elim (event_type_of X value) [
      | none ↦ panicked
      | some event_type ↦ proposed (record {
        event_id = event_id;
        event_type = event_type;
        payload = payload_of X value;
        metadata = record {
          aggregate_type = aggregate_type;
          instance_id = instance_id;
          actor = ctx.actor;
          correlation_id = ctx.correlation_id;
          source_device = ctx.source_device;
        };
      })
    ]
  ]

module _ (X : Runtime) where
  -- `.get(key).and_then(|v| v.as_str()).filter(|s| !s.is_empty())`
  unfoldable pub required_field : X.Value → String → Option String
  required_field v key = do
    field ← X.get v key
    s ← X.as_str field
    if str_eq s "" then none else some s

  -- An empty payload is null, any other must be UTF-8 JSON.
  unfoldable pub decode_payload : X.Bytes → Option X.Value
  unfolding from_utf8
  decode_payload b = if X.is_empty b then some X.null else (from_utf8 X b >>= X.from_str)

  unfoldable pub decode_stored_event : RecordedEvent X → Option (StoredEvent X)
  unfolding from_utf8 required_field decode_payload
  decode_stored_event recorded = do
    metadata_str ← from_utf8 X recorded.metadata
    metadata_value ← X.from_str metadata_str
    aggregate_type ← required_field metadata_value "aggregate_type"
    instance_id ← required_field metadata_value "instance_id"
    event_id ← X.parse_uuid recorded.event_id
    stream_id ← X.parse_uuid recorded.stream_id
    payload ← decode_payload recorded.payload
    some (record {
      event_id = event_id;
      stream_id = stream_id;
      aggregate_type = aggregate_type;
      instance_id = instance_id;
      stream_version = recorded.stream_version;
      global_position = recorded.global_position;
      event_type = recorded.event_type;
      payload = payload;
      metadata = metadata_value;
      recorded_at = recorded.recorded_at;
    })
