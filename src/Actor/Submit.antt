-- ===== src/Actor/Submit.antt =====
-- src/actor.rs: one append with its version check, what it has written and how it leaves the actor.
use eventfold_es.Prelude.{
  ℕ, suc, true, String, ◌⊎◌, ◌≡◌, refl, sym, ◌∙◌, ap, inl, inr, Option, none, some, List, [], ◌∷◌,
  ◌++◌, append_assoc, append-nil, Result, ok, err, arith, length, length-append, eq-nil_of_length,
  Result-cases, Bool-cases,
}
use eventfold_es.Runtime.{Runtime, RuntimeLaws}
use eventfold_es.Aggregate.{Aggregate, IsAdjacentlyTagged}
use eventfold_es.Event.{ProposedEventData, RecordedEvent}
use eventfold_es.Error.{ExecuteError}
use eventfold_es.Client.Proto.{AppendResponse}
use eventfold_es.Actor.Ops.{EventStoreOps}
use eventfold_es.Actor.Execute.{
  Actor, Request, Attempt, finished, again, panic, EncodedAll, all_proposed, encode_failed,
  encode_panicked, read_from, expected_version, reread, submit, apply_all, u64_max,
}
use eventfold_es.Actor.Server.{IsLogServer, AreRecorded, Permits, ids_of}
use eventfold_es.Actor.Replay.{applied, replay, replay-append}
use eventfold_es.Actor.Encoding.{AreEncoded, replay-recorded}
use eventfold_es.Actor.Coherence.{IsCoherent, IsCoherent-grow, IsCoherent-catch_up}

-- The version check admits exactly the logs of the actor's length.
Permits-applied : (v : Option ℕ) (n : ℕ) → Permits (expected_version v) n → n ≡ applied v
unfolding expected_version
Permits-applied none n h = h
Permits-applied (some v) n h = h

pub EncodedAll-cases :
    {X : Runtime} (c : EncodedAll X)
    → ((ps : List (ProposedEventData X)) × (c ≡ all_proposed ps))
      ⊎ (((m : String) × (c ≡ encode_failed m)) ⊎ (c ≡ encode_panicked))
EncodedAll-cases (all_proposed ps) = inl (ps, refl)
EncodedAll-cases (encode_failed m) = inr (inl (m, refl))
EncodedAll-cases encode_panicked = inr (inr refl)

pub handle-cases :
    {E B : Type 0} (c : Result (List B) E)
    → ((e : E) × (c ≡ err e)) ⊎ ((c ≡ ok []) ⊎ ((b : B) × (bs : List B) × (c ≡ ok (b ∷ bs))))
handle-cases (err e) = inl (e, refl)
handle-cases (ok []) = inr (inl refl)
handle-cases (ok (b ∷ bs)) = inr (inr (b, bs, refl))

pub Attempt-cases :
    {X : Runtime} {A : Aggregate X} (c : Attempt X A)
    → ((res : Result (List A.DomainEvent) (ExecuteError X A.Error)) × (c ≡ finished res))
      ⊎ ((c ≡ again) ⊎ (c ≡ panic))
Attempt-cases (finished res) = inl (res, refl)
Attempt-cases again = inr (inl refl)
Attempt-cases panic = inr (inr refl)

module _ (X : Runtime) (A : Aggregate X) (S : EventStoreOps X) (r : Request X A)
    (L : IsLogServer X S r.stream_id) where
  -- `events` were decided on exactly the log `at` that stands before their record `own`.
  pub record IsCommitted (events : List A.DomainEvent) (a : Actor X A S) : Type 0 where
    pub at : List (RecordedEvent X)
    pub own : List (RecordedEvent X)
    pub later : List (RecordedEvent X)
    pub log : L.log a.store ≡ (at ++ own) ++ later
    pub decided : A.handle (replay X A A.default at) r.command ≡ ok events
    pub proposals : List (ProposedEventData X)
    pub encoded : AreEncoded X A r events proposals
    pub recorded : AreRecorded X proposals own
    pub state : a.state ≡ replay X A A.default (at ++ own)
    pub version : applied a.stream_version ≡ length (at ++ own)

  IsCommitted-IsCoherent :
      (events : List A.DomainEvent) (a : Actor X A S) → IsCommitted events a → IsCoherent X A S L a
  IsCommitted-IsCoherent events a h = record {
    seen = h.at ++ h.own;
    rest = h.later;
    log = h.log;
    state = h.state;
    version = h.version;
  }

  -- A command that decides nothing has written nothing.
  pub IsCommitted-none :
      (a : Actor X A S)
      → IsCoherent X A S L a
      → A.handle a.state r.command ≡ ok []
      → IsCommitted [] a
  IsCommitted-none a h dec = record {
    at = h.seen;
    own = [];
    later = h.rest;
    log = h.log ∙ ap (λ l. l ++ h.rest) (sym (append-nil h.seen));
    decided = rw h.state at dec;
    proposals = [];
    encoded = tt;
    recorded = tt;
    state = h.state ∙ ap (replay X A A.default) (sym (append-nil h.seen));
    version = h.version ∙ ap length (sym (append-nil h.seen));
  }

  reread-IsCoherent :
      (a : Actor X A S) → IsCoherent X A S L a → IsCoherent X A S L (reread X A S r a).1
  unfolding reread
  reread-IsCoherent a h =
      let from = read_from a.stream_version in
      elim (Result-cases (S.read_stream r.stream_id from u64_max a.store).0) [
        | inl (es, e) ↦
            let (before, later, g, d) = L.after_read from a.store es e in
            rw (e, reread) (IsCoherent-catch_up X A S L a _ before later es h g d)
        | inr (st, e) ↦
            let (more, g) = L.after_failed_read from a.store st e in
            rw (e, reread) (IsCoherent-grow X A S L a _ more g h)
      ]

  -- The append succeeded: its check admits only the log that the actor has seen.
  submit-IsCommitted :
      RuntimeLaws X
      → ((e : A.DomainEvent) → IsAdjacentlyTagged X A e)
      → (events : List A.DomainEvent) (ps : List (ProposedEventData X)) (a : Actor X A S)
        (resp : AppendResponse)
      → IsCoherent X A S L a
      → A.handle a.state r.command ≡ ok events
      → AreEncoded X A r events ps
      → L.are_new (ids_of X ps) a.store ≡ true
      → (S.append r.stream_id (expected_version a.stream_version) ps a.store).0 ≡ ok resp
      → IsCommitted events (record {
        store = (S.append r.stream_id (expected_version a.stream_version) ps a.store).1;
        state = apply_all X A a.state events;
        stream_version = some resp.last_stream_version;
      })
  submit-IsCommitted laws tagged events ps a resp h dec enc new e = record {
    at = h.seen;
    own = own;
    later = later;
    log = rw at_seen at (out.3);
    decided = rw h.state at dec;
    proposals = ps;
    encoded = enc;
    recorded = out.5;
    state =
        ap (λ s. apply_all X A s events) h.state
        ∙ sym (replay-recorded X A laws tagged r events ps own _ enc out.5)
        ∙ sym (replay-append X A A.default h.seen own);
    version = rw at_seen at (out.6);
  }
    where
      out :
          (before own later : List (RecordedEvent X)) × (L.log
              (S.append r.stream_id (expected_version a.stream_version) ps a.store).1
            ≡ ((L.log a.store ++ before) ++ own) ++ later)
          × Permits (expected_version a.stream_version) (length (L.log a.store ++ before))
          × AreRecorded X ps own
          × (suc resp.last_stream_version ≡ length ((L.log a.store ++ before) ++ own))
      out = L.after_append (expected_version a.stream_version) ps a.store resp new e

      own : List (RecordedEvent X)
      own = out.1

      later : List (RecordedEvent X)
      later = out.2

      whole : L.log a.store ++ out.0 ≡ h.seen ++ (h.rest ++ out.0)
      whole = ap (λ l. l ++ out.0) h.log ∙ append_assoc h.seen h.rest out.0

      none_unseen : h.rest ++ out.0 ≡ []
      none_unseen = eq-nil_of_length (h.rest ++ out.0) (
          omega (
            arith,
            ap length whole,
            length-append h.seen (h.rest ++ out.0),
            Permits-applied a.stream_version (length (L.log a.store ++ out.0)) out.4,
            h.version,
          ))

      at_seen : L.log a.store ++ out.0 ≡ h.seen
      at_seen = whole ∙ ap (λ l. h.seen ++ l) none_unseen ∙ append-nil h.seen

  reread-not_ok :
      (a : Actor X A S) (es : List A.DomainEvent) → (reread X A S r a).0 ≡ finished (ok es) → ⊥
  unfolding reread
  reread-not_ok a es h =
      let from = read_from a.stream_version in
      elim (Result-cases (S.read_stream r.stream_id from u64_max a.store).0) [
        | inl (evs, e) ↦ cc (rw (e, reread) at h)
        | inr (st, e) ↦ cc (rw (e, reread) at h)
      ]

  module _ (laws : RuntimeLaws X) (tagged : (e : A.DomainEvent) → IsAdjacentlyTagged X A e) where
    pub submit-IsCoherent :
        (events : List A.DomainEvent) (ps : List (ProposedEventData X)) (a : Actor X A S)
        → IsCoherent X A S L a
        → A.handle a.state r.command ≡ ok events
        → AreEncoded X A r events ps
        → L.are_new (ids_of X ps) a.store ≡ true
        → IsCoherent X A S L (submit X A S r events ps a).1
    unfolding submit
    submit-IsCoherent events ps a h dec enc new =
        let expected = expected_version a.stream_version in
        elim (Result-cases (S.append r.stream_id expected ps a.store).0) [
          | inl (resp, e) ↦
              rw (e, submit)
                (IsCommitted-IsCoherent events _
                  (submit-IsCommitted laws tagged events ps a resp h dec enc new e))
          | inr (st, e) ↦
              let (more, g) = L.append_grows expected ps a.store in
              let grown = IsCoherent-grow X A S L a _ more g h in
              elim (Bool-cases (X.failed_precondition st)) [
                | inl c ↦ rw (e, c, submit) (reread-IsCoherent _ grown)
                | inr c ↦ rw (e, c, submit) grown
              ]
        ]

    pub submit-ok :
        (events es : List A.DomainEvent) (ps : List (ProposedEventData X)) (a : Actor X A S)
        → IsCoherent X A S L a
        → A.handle a.state r.command ≡ ok events
        → AreEncoded X A r events ps
        → L.are_new (ids_of X ps) a.store ≡ true
        → (submit X A S r events ps a).0 ≡ finished (ok es)
        → IsCommitted es (submit X A S r events ps a).1
    unfolding submit
    submit-ok events es ps a h dec enc new q =
        let expected = expected_version a.stream_version in
        elim (Result-cases (S.append r.stream_id expected ps a.store).0) [
          | inl (resp, e) ↦
              let same : events ≡ es = cc (rw (e, submit) at q) in
              rw (← same, e, submit)
                (submit-IsCommitted laws tagged events ps a resp h dec enc new e)
          | inr (st, e) ↦ absurd (elim (Bool-cases (X.failed_precondition st)) [
            | inl c ↦ reread-not_ok _ es (rw (e, c, submit) at q)
            | inr c ↦ cc (rw (e, c, submit) at q)
          ])
        ]
