-- ===== src/Actor/Execute.antt =====
-- src/actor.rs: `decode_domain_event` and the command loop `execute_with_retry`.
use eventfold_es.Prelude.{
  ℕ, zero, suc, ◌-◌, String, Option, none, some, List, [], ◌∷◌, Result, ok, err, ◌>>=◌,
  if◌then◌else◌, u64_mod, next_u64,
}
use eventfold_es.Runtime.{Runtime, from_utf8}
use eventfold_es.Command.{CommandContext}
use eventfold_es.Aggregate.{Aggregate, unit_variant, data_variant}
use eventfold_es.Event.{
  ProposedEventData, RecordedEvent, proposed, serde_error, panicked, encode_domain_event,
}
use eventfold_es.Client.{ExpectedVersionArg, no_stream, exact}
use eventfold_es.Io.{invalid_data}
use eventfold_es.Error.{ExecuteError, domain, wrong_expected_version, io, transport}
use eventfold_es.Actor.Ops.{EventStoreOps}

-- MAX_RETRIES
abbrev pub max_retries : ℕ
max_retries = 3

-- u64::MAX
abbrev pub u64_max : ℕ
u64_max = u64_mod - 1

-- stream_version.map_or(0, |v| v + 1)
unfoldable pub read_from : Option ℕ → ℕ
read_from none = 0
read_from (some v) = next_u64 v

unfoldable pub expected_version : Option ℕ → ExpectedVersionArg
expected_version (some v) = exact v
expected_version none = no_stream

module _ (X : Runtime) (A : Aggregate X) where
  -- The text of a payload as JSON; an empty text is null.
  payload_value : X.Bytes → Option X.Value
  payload_value text = if X.is_empty text then some X.null else X.from_str text

  unfoldable pub envelope_of : String → X.Value → X.Value
  envelope_of event_type payload =
      if X.is_null payload then unit_variant X event_type else data_variant X event_type payload

  unfoldable pub decode_domain_event : RecordedEvent X → Option A.DomainEvent
  unfolding from_utf8 payload_value envelope_of
  decode_domain_event recorded = do
    payload_str ← from_utf8 X recorded.payload
    payload ← payload_value payload_str
    A.from_value (envelope_of recorded.event_type payload)

  -- `if let Some(domain_event) = decode_domain_event(ev) { state = state.apply(&domain_event) }`
  unfoldable pub apply_recorded : A.State → RecordedEvent X → A.State
  apply_recorded state ev = elim (decode_domain_event ev) [
    | none ↦ state
    | some e ↦ A.apply state e
  ]

  -- The loop over re-read events, which spawning, retrying and injecting share.
  unfoldable pub catch_up : A.State → Option ℕ → List (RecordedEvent X) → A.State × Option ℕ
  catch_up state version [] = (state, version)
  catch_up state version (ev ∷ rest) =
      catch_up (apply_recorded state ev) (some ev.stream_version) rest

  -- `for de in &domain_events { state = state.apply(de) }`
  unfoldable pub apply_all : A.State → List A.DomainEvent → A.State
  apply_all state [] = state
  apply_all state (e ∷ rest) = apply_all (A.apply state e) rest

pub data EncodedAll (X : Runtime) : Type 0 where
  all_proposed : List (ProposedEventData X) → EncodedAll X
  encode_failed : String → EncodedAll X
  encode_panicked : EncodedAll X

-- How an attempt ends: with a result, with another attempt, or with a panic of the task.
pub data Attempt (X : Runtime) (A : Aggregate X) : Type 0 where
  finished : Result (List A.DomainEvent) (ExecuteError X A.Error) → Attempt X A
  again : Attempt X A
  panic : Attempt X A

-- What the actor task holds: its store, and its view of the stream.
pub record Actor (X : Runtime) (A : Aggregate X) (S : EventStoreOps X) : Type 0 where
  pub store : S.W
  pub state : A.State
  pub stream_version : Option ℕ

-- One command and what it is run with.
pub record Request (X : Runtime) (A : Aggregate X) : Type 0 where
  pub stream_id : X.Uuid
  pub instance_id : String
  pub command : A.Command
  pub context : CommandContext X

module _ (X : Runtime) (A : Aggregate X) (S : EventStoreOps X) where
  unfoldable pub add_proposed : ProposedEventData X → EncodedAll X × S.W → EncodedAll X × S.W
  add_proposed p (all_proposed ps, w) = (all_proposed (p ∷ ps), w)
  add_proposed p (encode_failed e, w) = (encode_failed e, w)
  add_proposed p (encode_panicked, w) = (encode_panicked, w)

  -- The encoding of every event, up to the first that fails.
  unfoldable pub encode_all : Request X A → List A.DomainEvent → S.W → EncodedAll X × S.W
  unfolding add_proposed
  encode_all r [] w = (all_proposed [], w)
  encode_all r (e ∷ rest) w =
      let (event_id, w') = S.new_v4 w in
      let later = encode_all r rest w' in
      elim (encode_domain_event X A event_id e r.context A.aggregate_type r.instance_id) [
        | proposed p ↦ add_proposed p later
        | serde_error m ↦ (encode_failed m, w)
        | panicked ↦ (encode_panicked, w)
      ]

  -- Re-read from the server to catch up with concurrent writes.
  unfoldable pub reread : Request X A → Actor X A S → Attempt X A × Actor X A S
  reread r a =
      let (result, w) = S.read_stream r.stream_id (read_from a.stream_version) u64_max a.store in
      elim result [
        | err status ↦ (finished (err (transport status)), record a { store = w })
        | ok events ↦
            let (state, version) = catch_up X A a.state a.stream_version events in
            (again, record { store = w; state = state; stream_version = version })
      ]

  -- The append, with optimistic concurrency control, and what follows on each reply.
  unfoldable pub submit :
      Request X A
      → List A.DomainEvent
      → List (ProposedEventData X)
      → Actor X A S
      → Attempt X A × Actor X A S
  unfolding reread
  submit r events ps a =
      let (result, w) = S.append r.stream_id (expected_version a.stream_version) ps a.store in
      let a' : Actor X A S = record a { store = w } in
      let again_later = reread r a' in
      elim result [
        | ok resp ↦ (
          finished (ok events),
          record {
            store = w;
            state = apply_all X A a.state events;
            stream_version = some resp.last_stream_version;
          },
        )
        | err status ↦
            if X.failed_precondition status
            then again_later
            else (finished (err (transport status)), a')
      ]

  unfoldable pub encode_and_submit :
      Request X A → List A.DomainEvent → Actor X A S → Attempt X A × Actor X A S
  unfolding encode_all submit
  encode_and_submit r events a =
      let (encoded, w) = encode_all r events a.store in
      let a' : Actor X A S = record a { store = w } in
      elim encoded [
        | all_proposed ps ↦ submit r events ps a'
        | encode_failed m ↦ (finished (err (io (record { kind = invalid_data; message = m }))), a')
        | encode_panicked ↦ (panic, a')
      ]

  -- The body of the loop: decide, then encode and append what was decided.
  unfoldable pub attempt : Request X A → Actor X A S → Attempt X A × Actor X A S
  unfolding encode_and_submit
  attempt r a = elim (A.handle a.state r.command) [
    | err e ↦ (finished (err (domain e)), a)
    | ok [] ↦ (finished (ok []), a)
    | ok (e ∷ rest) ↦ encode_and_submit r (e ∷ rest) a
  ]

  -- The result, or `none` when the task panicked.
  abbrev pub Reply : Type 0
  Reply = Option (Result (List A.DomainEvent) (ExecuteError X A.Error))

  -- `n` attempts are left.
  unfoldable pub attempts : ℕ → Request X A → Actor X A S → Reply × Actor X A S
  attempts zero r a = (some (err wrong_expected_version), a)
  attempts (suc n) r a =
      let (outcome, a') = attempt r a in
      let rest = attempts n r a' in
      elim outcome [ finished result ↦ (some result, a') | again ↦ rest | panic ↦ (none, a') ]

  unfoldable pub execute_with_retry : Request X A → Actor X A S → Reply × Actor X A S
  unfolding attempts
  execute_with_retry r a = attempts max_retries r a
