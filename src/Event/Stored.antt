-- ===== src/Event/Stored.antt =====
-- src/event.rs and src/client.rs: what a reader of the global log makes of an event that was proposed.
use eventfold_es.Prelude.{
  String, ◌≡◌, ap, ◌∙◌, true, false, some, ◌∷◌, ◌++◌, str_eq, refl, List, Option, none,
}
use eventfold_es.Runtime.{Runtime, RuntimeLaws, ReadsBack, AreTexts, entry, from_utf8}
use eventfold_es.Event.{
  EventMetadata, ProposedEventData, RecordedEvent, metadata_value, required_field, decode_payload,
  optional_field, decode_stored_event,
}
use eventfold_es.Client.{to_proto_event, to_vec_or_default}
use eventfold_es.Actor.Codec.{IsRecorded}

module _ (X : Runtime) (laws : RuntimeLaws X) where
  -- The two fields that a reader asks for are found in what was serialized.
  type-field :
      (m : EventMetadata)
      → str_eq m.aggregate_type "" ≡ false
      → required_field X (metadata_value X m) "aggregate_type" ≡ some m.aggregate_type
  unfolding required_field metadata_value entry
  type-field m full =
      let fields =
        ("instance_id", X.text m.instance_id)
        ∷ (optional_field X "actor" m.actor
            ++ (optional_field X "correlation_id" m.correlation_id
                ++ optional_field X "source_device" m.source_device)) in
      rw (
        laws.get-object (("aggregate_type", X.text m.aggregate_type) ∷ fields) "aggregate_type",
        laws.as_str-text m.aggregate_type,
        full,
      )

  instance-field :
      (m : EventMetadata)
      → str_eq m.instance_id "" ≡ false
      → required_field X (metadata_value X m) "instance_id" ≡ some m.instance_id
  unfolding required_field metadata_value entry
  instance-field m full =
      let fields =
        ("instance_id", X.text m.instance_id)
        ∷ (optional_field X "actor" m.actor
            ++ (optional_field X "correlation_id" m.correlation_id
                ++ optional_field X "source_device" m.source_device)) in
      rw (
        laws.get-object (("aggregate_type", X.text m.aggregate_type) ∷ fields) "instance_id",
        laws.as_str-text m.instance_id,
        full,
      )

  -- Appending to string fields a field that may be absent.
  optional-AreTexts :
      (k : String) (o : Option String) (fs : List (String × X.Value))
      → AreTexts X fs
      → AreTexts X (optional_field X k o ++ fs)
  unfolding optional_field
  optional-AreTexts k none fs h = h
  optional-AreTexts k (some s) fs h = ((s, refl), h)

  last-AreTexts : (k : String) (o : Option String) → AreTexts X (optional_field X k o)
  unfolding optional_field
  last-AreTexts k none = tt
  last-AreTexts k (some s) = ((s, refl), tt)

  metadata-ReadsBack : (m : EventMetadata) → ReadsBack X (metadata_value X m)
  unfolding metadata_value
  metadata-ReadsBack m = laws.texts-ReadsBack _ (
    (m.aggregate_type, refl),
    (
      (m.instance_id, refl),
      optional-AreTexts "actor" m.actor _ (
          optional-AreTexts "correlation_id" m.correlation_id _
            (last-AreTexts "source_device" m.source_device)),
    ),
  )

  written-bytes :
      (v : X.Value)
      → ReadsBack X v
      → (b : X.Bytes) × (to_vec_or_default X v ≡ b)
        × (X.is_empty b ≡ false)
        × (X.is_utf8 b ≡ true)
        × (X.from_str b ≡ some v)
  unfolding to_vec_or_default
  written-bytes v round =
      let (b, made, full, text) = laws.written v in
      (b, rw (made, to_vec_or_default), full, text, round b made)

  payload-decoded :
      (v : X.Value) → ReadsBack X v → decode_payload X (to_vec_or_default X v) ≡ some v
  unfolding decode_payload from_utf8
  payload-decoded v round =
      let (b, made, full, text, back) = written-bytes v round in
      rw (made, full, text, back, decode_payload, from_utf8)

  decode_parts :
      (r : RecordedEvent X) (m payload : X.Value) (text : X.Bytes) (ty inst : String)
      (event_id stream_id : X.Uuid)
      → from_utf8 X r.metadata ≡ some text
      → X.from_str text ≡ some m
      → required_field X m "aggregate_type" ≡ some ty
      → required_field X m "instance_id" ≡ some inst
      → X.parse_uuid r.event_id ≡ some event_id
      → X.parse_uuid r.stream_id ≡ some stream_id
      → decode_payload X r.payload ≡ some payload
      → decode_stored_event X r
        ≡ some (record {
          event_id = event_id;
          stream_id = stream_id;
          aggregate_type = ty;
          instance_id = inst;
          stream_version = r.stream_version;
          global_position = r.global_position;
          event_type = r.event_type;
          payload = payload;
          metadata = m;
          recorded_at = r.recorded_at;
        })
  unfolding decode_stored_event
  decode_parts r m payload text ty inst event_id stream_id e1 e2 e3 e4 e5 e6 e7 =
      rw (e1, e2, e3, e4, e5, e6, e7, decode_stored_event)

  -- An event whose aggregate type and instance id are not empty and whose payload survives its JSON
  -- text, once the server has recorded it on a stream as it was sent, is read from the global log
  -- with exactly what was proposed: its id, type, payload and metadata, under the numbers and the
  -- time that the server gave it.
  pub decode_stored_event-recorded :
      (p : ProposedEventData X) (r : RecordedEvent X) (stream_id : X.Uuid)
      → str_eq p.metadata.aggregate_type "" ≡ false
      → str_eq p.metadata.instance_id "" ≡ false
      → ReadsBack X p.payload
      → IsRecorded X p r
      → r.stream_id ≡ X.show_uuid stream_id
      → decode_stored_event X r
        ≡ some (record {
          event_id = p.event_id;
          stream_id = stream_id;
          aggregate_type = p.metadata.aggregate_type;
          instance_id = p.metadata.instance_id;
          stream_version = r.stream_version;
          global_position = r.global_position;
          event_type = p.event_type;
          payload = p.payload;
          metadata = metadata_value X p.metadata;
          recorded_at = r.recorded_at;
        })
  unfolding to_proto_event from_utf8
  decode_stored_event-recorded p r stream_id typed named survives h on =
      let (b, made, full, text, back) =
        written-bytes (metadata_value X p.metadata) (metadata-ReadsBack p.metadata) in
      let bytes : r.metadata ≡ b = h.metadata ∙ made in
      let read : from_utf8 X r.metadata ≡ some b = rw (bytes, text, from_utf8) in
      rw (← h.event_type) (
        decode_parts r (metadata_value X p.metadata) p.payload b p.metadata.aggregate_type
          p.metadata.instance_id p.event_id stream_id read back (type-field p.metadata typed)
          (instance-field p.metadata named)
          (ap X.parse_uuid h.event_id ∙ laws.parse-show p.event_id)
          (ap X.parse_uuid on ∙ laws.parse-show stream_id)
          (ap (decode_payload X) h.payload ∙ payload-decoded p.payload survives))
