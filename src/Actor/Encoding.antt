-- ===== src/Actor/Encoding.antt =====
-- src/actor.rs: encoding a batch of events, and what the server's record of the batch replays to.
use eventfold_es.Prelude.{
  String, ◌≡◌, refl, ◌∙◌, sym, ap, inl, inr, ◌⊎◌, List, [], ◌∷◌, ◌++◌, append_assoc, append-nil,
  length, true, Result-cases, Option-cases,
}
use eventfold_es.Runtime.{Runtime, RuntimeLaws}
use eventfold_es.Aggregate.{Aggregate, IsAdjacentlyTagged}
use eventfold_es.Event.{
  ProposedEventData, RecordedEvent, Encoded, proposed, serde_error, panicked, event_type_of,
  encode_domain_event,
}
use eventfold_es.Actor.Ops.{EventStoreOps}
use eventfold_es.Actor.Execute.{
  Request, EncodedAll, all_proposed, encode_failed, encode_panicked, encode_all, apply_all,
  apply_recorded, add_proposed,
}
use eventfold_es.Actor.Server.{IsLogServer, AreRecorded, draw, ids_of}
use eventfold_es.Actor.Codec.{decode-encode}
use eventfold_es.Actor.Replay.{replay}

module _ (X : Runtime) (A : Aggregate X) where
  -- Each proposed event is the encoding of its domain event, under some fresh id.
  abbrev pub AreEncoded : Request X A → List A.DomainEvent → List (ProposedEventData X) → Type 0
  AreEncoded r [] [] = Unit {0}
  AreEncoded r (e ∷ es) (p ∷ ps) =
      ((id : X.Uuid) × (encode_domain_event X A id e r.context A.aggregate_type r.instance_id
          ≡ proposed p))
      × AreEncoded r es ps
  AreEncoded r [] (p ∷ ps) = ⊥
  AreEncoded r (e ∷ es) [] = ⊥

  -- The record of an encoded batch replays to the events of the batch.
  pub replay-recorded :
      RuntimeLaws X
      → ((e : A.DomainEvent) → IsAdjacentlyTagged X A e)
      → (r : Request X A) (es : List A.DomainEvent) (ps : List (ProposedEventData X))
        (rs : List (RecordedEvent X)) (s : A.State)
      → AreEncoded r es ps
      → AreRecorded X ps rs
      → replay X A s rs ≡ apply_all X A s es
  unfolding replay apply_all apply_recorded
  replay-recorded laws tagged r [] [] [] s e w = refl
  replay-recorded laws tagged r [] [] (x ∷ rs) s e w = absurd w
  replay-recorded laws tagged r [] (p ∷ ps) rs s e w = absurd e
  replay-recorded laws tagged r (d ∷ es) [] rs s e w = absurd e
  replay-recorded laws tagged r (d ∷ es) (p ∷ ps) [] s e w = absurd w
  replay-recorded laws tagged r (d ∷ es) (p ∷ ps) (x ∷ rs) s e w =
      let back =
        decode-encode X laws A e.0.0 d r.context A.aggregate_type r.instance_id p x (tagged d) e.0.1
          w.0 in
      rw (back, apply_recorded) (replay-recorded laws tagged r es ps rs (A.apply s d) e.1 w.1)

id_or : {X : Runtime} → X.Uuid → Encoded X → X.Uuid
id_or id (proposed p) = p.event_id
id_or id _ = id

pub Encoded-cases :
    {X : Runtime} (c : Encoded X)
    → ((p : ProposedEventData X) × (c ≡ proposed p))
      ⊎ (((m : String) × (c ≡ serde_error m)) ⊎ (c ≡ panicked))
Encoded-cases (proposed p) = inl (p, refl)
Encoded-cases (serde_error m) = inr (inl (m, refl))
Encoded-cases panicked = inr (inr refl)

module _ (X : Runtime) (A : Aggregate X) (S : EventStoreOps X) where
  pub add_proposed-world :
      (p : ProposedEventData X) (x : EncodedAll X × S.W) → (add_proposed X A S p x).1 ≡ x.1
  unfolding add_proposed
  add_proposed-world p (all_proposed ps, w) = refl
  add_proposed-world p (encode_failed m, w) = refl
  add_proposed-world p (encode_panicked, w) = refl

  add_proposed-eq :
      (p : ProposedEventData X) (x : EncodedAll X × S.W) (ps : List (ProposedEventData X))
      → (add_proposed X A S p x).0 ≡ all_proposed ps
      → (qs : List (ProposedEventData X)) × (x.0 ≡ all_proposed qs) × (p ∷ qs ≡ ps)
  unfolding add_proposed
  add_proposed-eq p (all_proposed qs, w) ps h = (qs, refl, cc)
  add_proposed-eq p (encode_failed m, w) ps h = cc
  add_proposed-eq p (encode_panicked, w) ps h = cc

  -- Encoding only draws ids, so the log can only have grown.
  pub encode_all-grows :
      {stream : X.Uuid} (L : IsLogServer X S stream) (r : Request X A) (es : List A.DomainEvent)
      (w : S.W)
      → (more : List (RecordedEvent X)) × (L.log (encode_all X A S r es w).1 ≡ L.log w ++ more)
  unfolding encode_all
  encode_all-grows L r [] w = ([], sym (append-nil (L.log w)))
  encode_all-grows L r (e ∷ es) w =
      let ih = encode_all-grows L r es (S.new_v4 w).1 in
      let drawn = L.after_new_v4 w in
      elim (Encoded-cases
        (encode_domain_event X A (S.new_v4 w).0 e r.context A.aggregate_type r.instance_id)) [
          | inl (p, c) ↦
              rw (c, encode_all)
                (
                  drawn.0 ++ ih.0,
                  rw add_proposed-world
                      (ih.1 ∙ ap (λ l. l ++ ih.0) drawn.1 ∙ append_assoc (L.log w) drawn.0 ih.0),
                )
          | inr (inl (m, c)) ↦ rw (c, encode_all) ([], sym (append-nil (L.log w)))
          | inr (inr c) ↦ rw (c, encode_all) ([], sym (append-nil (L.log w)))
        ]

  pub encode_all-encodes :
      (r : Request X A) (es : List A.DomainEvent) (w : S.W) (ps : List (ProposedEventData X))
      → (encode_all X A S r es w).0 ≡ all_proposed ps
      → AreEncoded X A r es ps
  unfolding encode_all
  encode_all-encodes r [] w [] h = tt
  encode_all-encodes r [] w (p ∷ ps) h = cc
  encode_all-encodes r (e ∷ es) w ps h =
      elim (Encoded-cases
        (encode_domain_event X A (S.new_v4 w).0 e r.context A.aggregate_type r.instance_id)) [
          | inl (p, c) ↦
              let split =
                add_proposed-eq p (encode_all X A S r es (S.new_v4 w).1) ps
                  (rw (c, encode_all) at h) in
              rw (← split.2)
                (((S.new_v4 w).0, c), encode_all-encodes r es (S.new_v4 w).1 split.0 split.1)
          | inr (inl (m, c)) ↦ cc (rw (c, encode_all) at h)
          | inr (inr c) ↦ cc (rw (c, encode_all) at h)
        ]

  encode_domain_event-id :
      (id : X.Uuid) (e : A.DomainEvent) (r : Request X A) (p : ProposedEventData X)
      → encode_domain_event X A id e r.context A.aggregate_type r.instance_id ≡ proposed p
      → p.event_id ≡ id
  unfolding encode_domain_event id_or
  encode_domain_event-id id e r p h = elim (Result-cases (A.to_value e)) [
    | inr (m, c) ↦ cc (rw (c, encode_domain_event) at h)
    | inl (v, c) ↦ elim (Option-cases (event_type_of X v)) [
      | inl d ↦ cc (rw (c, d, encode_domain_event) at h)
      | inr (t, d) ↦ sym (ap (λ (x : Encoded X). id_or id x) (rw (c, d, encode_domain_event) at h))
    ]
  ]

  -- The ids of an encoded batch are those of as many draws in a row.
  encode_all-drawn :
      (r : Request X A) (es : List A.DomainEvent) (w : S.W) (ps : List (ProposedEventData X))
      → (encode_all X A S r es w).0 ≡ all_proposed ps
      → (ids_of X ps, (encode_all X A S r es w).1) ≡ draw S (length es) w
  unfolding encode_all draw
  encode_all-drawn r [] w [] h = refl
  encode_all-drawn r [] w (p ∷ ps) h = cc
  encode_all-drawn r (e ∷ es) w ps h =
      elim (Encoded-cases
        (encode_domain_event X A (S.new_v4 w).0 e r.context A.aggregate_type r.instance_id)) [
          | inl (p, c) ↦
              let later = encode_all X A S r es (S.new_v4 w).1 in
              let split = add_proposed-eq p later ps (rw (c, encode_all) at h) in
              let ih = encode_all-drawn r es (S.new_v4 w).1 split.0 split.1 in
              let id = encode_domain_event-id (S.new_v4 w).0 e r p c in
              rw (c, ← split.2, encode_all)
                (rw (add_proposed-world p later, id)
                  (ap (λ (x : List X.Uuid × S.W). ((S.new_v4 w).0 ∷ x.0, x.1)) ih))
          | inr (inl (m, c)) ↦ cc (rw (c, encode_all) at h)
          | inr (inr c) ↦ cc (rw (c, encode_all) at h)
        ]

  pub encode_all-new :
      {stream : X.Uuid} (L : IsLogServer X S stream) (r : Request X A) (es : List A.DomainEvent)
      (w : S.W) (ps : List (ProposedEventData X))
      → (encode_all X A S r es w).0 ≡ all_proposed ps
      → L.are_new (ids_of X ps) (encode_all X A S r es w).1 ≡ true
  encode_all-new L r es w ps h =
      ap (λ (x : List X.Uuid × S.W). L.are_new x.0 x.1) (encode_all-drawn r es w ps h)
      ∙ L.drawn-new (length es) w
