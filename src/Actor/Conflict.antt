-- ===== src/Actor/Conflict.antt =====
-- src/actor.rs: the retry loop, how often it appends, and its answer under constant conflicts.
use eventfold_es.Prelude.{
  ℕ, zero, suc, ◌+◌, ◌≤◌, ◌≡◌, refl, inl, inr, true, some, List, [], ◌∷◌, ok, err, arith,
  Result-cases, Bool-cases,
}
use eventfold_es.Runtime.{Runtime}
use eventfold_es.Aggregate.{Aggregate}
use eventfold_es.Event.{ProposedEventData, RecordedEvent, encode_domain_event}
use eventfold_es.Client.{ExpectedVersionArg}
use eventfold_es.Error.{wrong_expected_version}
use eventfold_es.Actor.Ops.{EventStoreOps}
use eventfold_es.Actor.Execute.{
  Actor, Request, again, all_proposed, read_from, expected_version, reread, submit, encode_all,
  encode_and_submit, attempt, attempts, execute_with_retry, max_retries, u64_max,
}
use eventfold_es.Actor.Encoding.{Encoded-cases, add_proposed-world}
use eventfold_es.Actor.Submit.{EncodedAll-cases, handle-cases, Attempt-cases}

module _ (X : Runtime) (A : Aggregate X) (S : EventStoreOps X) (r : Request X A) where
  -- A server that answers each append of this stream with a version conflict, and each read.
  pub record AlwaysConflicts : Type 0 where
    pub refuses :
        (expected : ExpectedVersionArg) (ps : List (ProposedEventData X)) (w : S.W)
        → (status : X.Status) × ((S.append r.stream_id expected ps w).0 ≡ err status)
          × (X.failed_precondition status ≡ true)
    pub reads :
        (from : ℕ) (w : S.W)
        → (es : List (RecordedEvent X)) × ((S.read_stream r.stream_id from u64_max w).0 ≡ ok es)

  -- A command that always decides events, all of which encode.
  pub record AlwaysDecides : Type 0 where
    pub decides :
        (s : A.State)
        → (e : A.DomainEvent) × (es : List A.DomainEvent) × (A.handle s r.command ≡ ok (e ∷ es))
    pub encodes :
        (es : List A.DomainEvent) (w : S.W)
        → (ps : List (ProposedEventData X)) × ((encode_all X A S r es w).0 ≡ all_proposed ps)

  attempt-again :
      (a : Actor X A S) → AlwaysConflicts → AlwaysDecides → (attempt X A S r a).0 ≡ again
  unfolding attempt
  attempt-again a c d =
      let (e, es, q) = d.decides a.state in
      let (ps, enc) = d.encodes (e ∷ es) a.store in
      let w = (encode_all X A S r (e ∷ es) a.store).1 in
      let expected = expected_version a.stream_version in
      let (status, refused, conflict) = c.refuses expected ps w in
      let w' = (S.append r.stream_id expected ps w).1 in
      let (evs, got) = c.reads (read_from a.stream_version) w' in
      rw (q, attempt)
        (rw (enc, encode_and_submit) (rw (refused, conflict, submit) (rw (got, reread))))

  attempts-conflict :
      (n : ℕ) (a : Actor X A S)
      → AlwaysConflicts
      → AlwaysDecides
      → (attempts X A S n r a).0 ≡ some (err wrong_expected_version)
  unfolding attempts
  attempts-conflict zero a c d = refl
  attempts-conflict (suc n) a c d =
      rw (attempt-again a c d, attempts) (attempts-conflict n (attempt X A S r a).1 c d)

  -- If every append to the stream conflicts while reads succeed, and the handler always decides
  -- events that can be encoded, a command ends, after its retries, with `WrongExpectedVersion`.
  pub execute_with_retry-conflict :
      (a : Actor X A S)
      → AlwaysConflicts
      → AlwaysDecides
      → (execute_with_retry X A S r a).0 ≡ some (err wrong_expected_version)
  unfolding execute_with_retry
  execute_with_retry-conflict = attempts-conflict max_retries

  -- A meter on the world that moves by one on each append, and by nothing on the other calls.
  pub record IsAppendMeter (cost : S.W → ℕ) : Type 0 where
    pub appends :
        (expected : ExpectedVersionArg) (ps : List (ProposedEventData X)) (w : S.W)
        → cost (S.append r.stream_id expected ps w).1 ≡ cost w + 1
    pub reads : (from : ℕ) (w : S.W) → cost (S.read_stream r.stream_id from u64_max w).1 ≡ cost w
    pub draws : (w : S.W) → cost (S.new_v4 w).1 ≡ cost w

  module _ (cost : S.W → ℕ) (m : IsAppendMeter cost) where
    reread-cost : (a : Actor X A S) → cost (reread X A S r a).1.store ≡ cost a.store
    unfolding reread
    reread-cost a =
        let from = read_from a.stream_version in
        elim (Result-cases (S.read_stream r.stream_id from u64_max a.store).0) [
          | inl (es, e) ↦ rw (e, reread) (m.reads from a.store)
          | inr (st, e) ↦ rw (e, reread) (m.reads from a.store)
        ]

    encode_all-cost :
        (es : List A.DomainEvent) (w : S.W) → cost (encode_all X A S r es w).1 ≡ cost w
    unfolding encode_all
    encode_all-cost [] w = refl
    encode_all-cost (e ∷ es) w =
        let id = (S.new_v4 w).0 in
        let c = encode_domain_event X A id e r.context A.aggregate_type r.instance_id in
        elim (Encoded-cases c) [
          | inl (p, q) ↦
              rw (q, encode_all)
                (rw add_proposed-world
                  (omega (arith, encode_all-cost es (S.new_v4 w).1, m.draws w)))
          | inr (inl (t, q)) ↦ rw (q, encode_all)
          | inr (inr q) ↦ rw (q, encode_all)
        ]

    submit-cost :
        (es : List A.DomainEvent) (ps : List (ProposedEventData X)) (a : Actor X A S)
        → cost (submit X A S r es ps a).1.store ≡ cost a.store + 1
    unfolding submit
    submit-cost es ps a =
        let expected = expected_version a.stream_version in
        let one = m.appends expected ps a.store in
        elim (Result-cases (S.append r.stream_id expected ps a.store).0) [
          | inl (resp, e) ↦ rw (e, submit) one
          | inr (st, e) ↦ elim (Bool-cases (X.failed_precondition st)) [
            | inl c ↦
                rw (e, c, submit)
                  (omega (
                    arith,
                    reread-cost (record a { store = (S.append r.stream_id expected ps a.store).1 }),
                    one,
                  ))
            | inr c ↦ rw (e, c, submit) one
          ]
        ]

    attempt-cost : (a : Actor X A S) → cost (attempt X A S r a).1.store ≤ cost a.store + 1
    unfolding attempt
    attempt-cost a = elim (handle-cases (A.handle a.state r.command)) [
      | inl (e, q) ↦ rw (q, attempt) (omega arith)
      | inr (inl q) ↦ rw (q, attempt) (omega arith)
      | inr (inr (e, es, q)) ↦
          let w = (encode_all X A S r (e ∷ es) a.store).1 in
          let drawn = encode_all-cost (e ∷ es) a.store in
          rw (q, attempt)
            (elim (EncodedAll-cases (encode_all X A S r (e ∷ es) a.store).0) [
              | inl (ps, c) ↦
                  rw (c, encode_and_submit)
                    (omega (arith, drawn, submit-cost (e ∷ es) ps (record a { store = w })))
              | inr (inl (t, c)) ↦ rw (c, encode_and_submit) (omega (arith, drawn))
              | inr (inr c) ↦ rw (c, encode_and_submit) (omega (arith, drawn))
            ])
    ]

    attempts-cost :
        (n : ℕ) (a : Actor X A S) → cost (attempts X A S n r a).1.store ≤ cost a.store + n
    unfolding attempts
    attempts-cost zero a = omega arith
    attempts-cost (suc n) a =
        let one = attempt-cost a in
        elim (Attempt-cases (attempt X A S r a).0) [
          | inl (res, q) ↦ rw (q, attempts) (omega arith)
          | inr (inl q) ↦ rw (q, attempts) (omega (arith, attempts-cost n (attempt X A S r a).1))
          | inr (inr q) ↦ rw (q, attempts) (omega arith)
        ]

    -- Whatever the server answers, one command moves a meter that counts append calls by at most
    -- three.
    pub execute_with_retry-appends :
        (a : Actor X A S) → cost (execute_with_retry X A S r a).1.store ≤ cost a.store + 3
    unfolding execute_with_retry
    execute_with_retry-appends a = attempts-cost max_retries a
