-- ===== src/Client/Transport.antt =====
-- src/client.rs: the two transports of the client. The generated stubs over a channel, and tonic's
-- service that runs an interceptor before each request, are parameters.

pub mod Headers
use eventfold_es.Prelude.{ℕ, String, ◌≡◌, Option, some, List, [], ◌∷◌, Result, ok, err}
use eventfold_es.Runtime.{Runtime}
use eventfold_es.Event.{ProposedEventData, RecordedEvent}
use eventfold_es.Auth.{Metadata, BearerInterceptor, Intercepted, passed, rejected, call}
use eventfold_es.Client
use eventfold_es.Client.{Grpc, ExpectedVersionArg}
use eventfold_es.Client.Proto.{AppendRequest, AppendResponse, ReadStreamRequest, SubscribeResponse}

-- The stubs: a request goes out with its metadata.
pub record Channel (X : Runtime) : Type 1 where
  pub W : Type 0
  pub append : Metadata → AppendRequest X → W → Result AppendResponse X.Status × W
  pub read_stream : Metadata → ReadStreamRequest → W → Result (List (RecordedEvent X)) X.Status × W
  pub subscribe_all :
      Metadata → ℕ → W → Result (List (Result (SubscribeResponse X) X.Status)) X.Status × W

-- tonic's `InterceptedService`: a new request has no metadata; the interceptor's metadata are what
-- is sent, and its error is the answer of a request that is not sent.
pub record InterceptedService (X : Runtime) (W : Type 0) : Type 1 where
  pub through :
      {Q R : Type 0}
      → (Metadata → Intercepted X)
      → (Metadata → Q → W → Result R X.Status × W)
      → Q
      → W
      → Result R X.Status × W
  pub sends :
      {Q R : Type 0} (f : Metadata → Intercepted X)
      (send : Metadata → Q → W → Result R X.Status × W) (q : Q) (w : W) (m : Metadata)
      → f [] ≡ passed m
      → through f send q w ≡ send m q w
  pub refuses :
      {Q R : Type 0} (f : Metadata → Intercepted X)
      (send : Metadata → Q → W → Result R X.Status × W) (q : Q) (w : W) (status : X.Status)
      → f [] ≡ rejected status
      → through f send q w ≡ (err status, w)

pub data EsClientInner : Type 0 where
  plain auth : EsClientInner

module _ (X : Runtime) (parse : String → Option String) (C : Channel X)
    (I : InterceptedService X C.W) where
  -- The outside world with the token that the client shares with the program. No writer panics, so
  -- its lock is never poisoned.
  pub record Session : Type 0 where
    pub token : String
    pub world : C.W

  unfoldable pub within : {R : Type 0} → (C.W → R × C.W) → Session → R × Session
  within f s = let (r, w) = f s.world in (r, record s { world = w })

  -- BearerInterceptor { token }, as it reads the lock now.
  unfoldable pub bearer : Session → Metadata → Intercepted X
  bearer s = call X parse (record { token = some s.token })

  -- `match self.inner.as_ref()`
  unfoldable pub sent :
      {Q R : Type 0}
      → EsClientInner
      → (Metadata → Q → C.W → Result R X.Status × C.W)
      → Q
      → Session
      → Result R X.Status × Session
  unfolding within bearer
  sent plain send q s = within (send [] q) s
  sent auth send q s = within (I.through (bearer s) send q) s

  -- EsClient, as what the other modules call.
  abbrev pub transport : EsClientInner → Grpc X
  transport inner = record {
    W = Session;
    append = sent inner C.append;
    read_stream = sent inner C.read_stream;
    subscribe_all = sent inner C.subscribe_all;
  }

  -- A call of the client, or a write of the program to the shared token.
  pub data Op : Type 0 where
    refresh : String → Op
    append : X.Uuid → ExpectedVersionArg → List (ProposedEventData X) → Op
    read_stream : X.Uuid → ℕ → ℕ → Op
    subscribe : ℕ → Op

  unfoldable pub perform : EsClientInner → Op → Session → Session
  perform inner (refresh token) s = record s { token = token }
  perform inner (append stream expected events) s =
      (Client.append X (transport inner) stream expected events s).1
  perform inner (read_stream stream from count) s =
      (Client.read_stream X (transport inner) stream from count s).1
  perform inner (subscribe from) s = (Client.subscribe_all_from X (transport inner) from s).1

  unfoldable pub perform_all : EsClientInner → List Op → Session → Session
  perform_all inner [] s = s
  perform_all inner (op ∷ ops) s = perform_all inner ops (perform inner op s)
