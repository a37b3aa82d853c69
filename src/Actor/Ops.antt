-- ===== src/Actor/Ops.antt =====
-- src/actor.rs, `EventStoreOps`: the store operations that an actor uses, and their
-- implementation by the gRPC client.
use eventfold_es.Prelude.{ℕ, List, Result}
use eventfold_es.Runtime.{Runtime}
use eventfold_es.Event.{ProposedEventData, RecordedEvent}
use eventfold_es.Client
use eventfold_es.Client.{ExpectedVersionArg, Grpc}
use eventfold_es.Client.Proto.{AppendResponse}

-- `W` is the outside world that the operations act in. `new_v4` is `Uuid::new_v4`, whose source of
-- randomness belongs to that world.
pub record EventStoreOps (X : Runtime) : Type 1 where
  pub W : Type 0
  pub append :
      X.Uuid
      → ExpectedVersionArg
      → List (ProposedEventData X)
      → W
      → Result AppendResponse X.Status × W
  pub read_stream : X.Uuid → ℕ → ℕ → W → Result (List (RecordedEvent X)) X.Status × W
  pub new_v4 : W → X.Uuid × W

-- impl EventStoreOps for EsClient
abbrev pub es_client_ops : (X : Runtime) (G : Grpc X) → (G.W → X.Uuid × G.W) → EventStoreOps X
es_client_ops X G new_v4 = record {
  W = G.W;
  append = Client.append X G;
  read_stream = Client.read_stream X G;
  new_v4 = new_v4;
}
