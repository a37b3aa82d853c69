-- ===== src/Client/Proto.antt =====
-- The messages of proto/eventfold.proto that the client sends and receives.
use eventfold_es.Prelude.{ℕ, String, Option, List}
use eventfold_es.Runtime.{Runtime}
use eventfold_es.Event.{RecordedEvent}

-- `oneof kind` of ExpectedVersion.
pub data Kind : Type 0 where
  any : Kind
  no_stream : Kind
  exact : ℕ → Kind

pub record ExpectedVersion : Type 0 where
  pub kind : Option Kind

pub record ProposedEvent (X : Runtime) : Type 0 where
  pub event_id : String
  pub event_type : String
  pub metadata : X.Bytes
  pub payload : X.Bytes

pub record AppendRequest (X : Runtime) : Type 0 where
  pub stream_id : String
  pub expected_version : Option ExpectedVersion
  pub events : List (ProposedEvent X)

pub record AppendResponse : Type 0 where
  pub first_stream_version : ℕ
  pub last_stream_version : ℕ
  pub first_global_position : ℕ
  pub last_global_position : ℕ

pub record ReadStreamRequest : Type 0 where
  pub stream_id : String
  pub from_version : ℕ
  pub max_count : ℕ

-- `oneof content` of SubscribeResponse; an empty message has none.
pub data Content (X : Runtime) : Type 0 where
  event : RecordedEvent X → Content X
  caught_up : Content X

pub record SubscribeResponse (X : Runtime) : Type 0 where
  pub content : Option (Content X)
