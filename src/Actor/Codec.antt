-- ===== src/Actor/Codec.antt =====
-- src/actor.rs, src/event.rs and src/client.rs: encoding a domain event and decoding its record.
use eventfold_es.Prelude.{String, ◌≡◌, some, [], ◌∷◌, ok, arith}
use eventfold_es.Runtime.{Runtime, RuntimeLaws, ReadsBack, entry}
use eventfold_es.Command.{CommandContext}
use eventfold_es.Aggregate.{
  Aggregate, IsAdjacentlyTagged, is_unit, is_data, unit_variant, data_variant,
}
use eventfold_es.Event.{ProposedEventData, RecordedEvent, proposed, encode_domain_event}
use eventfold_es.Client.{to_proto_event}
use eventfold_es.Actor.Execute.{decode_domain_event, envelope_of}

-- The server records what the client sent for a proposed event, under numbers of its own.
pub record IsRecorded (X : Runtime) (p : ProposedEventData X) (r : RecordedEvent X) : Type 0 where
  pub event_id : r.event_id ≡ (to_proto_event X p).event_id
  pub event_type : r.event_type ≡ (to_proto_event X p).event_type
  pub metadata : r.metadata ≡ (to_proto_event X p).metadata
  pub payload : r.payload ≡ (to_proto_event X p).payload

module _ (X : Runtime) (laws : RuntimeLaws X) (A : Aggregate X) where
  -- What an adjacently tagged value gives the encoder.
  encode-unit :
      (id : X.Uuid) (e : A.DomainEvent) (ctx : CommandContext X) (ty inst t : String)
      (p : ProposedEventData X)
      → A.to_value e ≡ ok (unit_variant X t)
      → encode_domain_event X A id e ctx ty inst ≡ proposed p
      → (p.event_type ≡ t) × (p.payload ≡ X.null)
  unfolding encode_domain_event entry
  encode-unit id e ctx ty inst t p v h = ground (
    arith,
    laws.get-object (("type", X.text t) ∷ []) "type",
    laws.get-object (("type", X.text t) ∷ []) "data",
    laws.as_str-text t,
  )

  encode-data :
      (id : X.Uuid) (e : A.DomainEvent) (ctx : CommandContext X) (ty inst t : String) (d : X.Value)
      (p : ProposedEventData X)
      → A.to_value e ≡ ok (data_variant X t d)
      → encode_domain_event X A id e ctx ty inst ≡ proposed p
      → (p.event_type ≡ t) × (p.payload ≡ d)
  unfolding encode_domain_event entry
  encode-data id e ctx ty inst t d p v h = ground (
    arith,
    laws.get-object (("type", X.text t) ∷ ("data", d) ∷ []) "type",
    laws.get-object (("type", X.text t) ∷ ("data", d) ∷ []) "data",
    laws.as_str-text t,
  )

  -- What the actor makes of a recorded payload.
  decode-written :
      (r : RecordedEvent X) (p : ProposedEventData X)
      → IsRecorded X p r
      → ReadsBack X p.payload
      → decode_domain_event X A r ≡ A.from_value (envelope_of X A p.event_type p.payload)
  unfolding decode_domain_event to_proto_event
  decode-written r p h round =
      let (b, made, full, text) = laws.written p.payload in
      ground (arith, h.event_type, h.payload, made, full, text, round b made)

  -- An adjacently tagged domain event whose content survives its JSON text, once it was encoded and
  -- recorded by the server as it was sent, decodes to the same event.
  pub decode-encode :
      (id : X.Uuid) (e : A.DomainEvent) (ctx : CommandContext X) (ty inst : String)
      (p : ProposedEventData X) (r : RecordedEvent X)
      → IsAdjacentlyTagged X A e
      → encode_domain_event X A id e ctx ty inst ≡ proposed p
      → IsRecorded X p r
      → decode_domain_event X A r ≡ some e
  unfolding envelope_of
  decode-encode id e ctx ty inst p r (is_unit t v back) h rec =
      let (a, b) = encode-unit id e ctx ty inst t p v h in
      let round : ReadsBack X p.payload = rw b laws.null-ReadsBack in
      ground (arith, decode-written r p rec round, laws.is_null-null)
  decode-encode id e ctx ty inst p r (is_data t d v full survives back) h rec =
      let (a, b) = encode-data id e ctx ty inst t d p v h in
      let round : ReadsBack X p.payload = rw b survives in
      ground (arith, decode-written r p rec round)
