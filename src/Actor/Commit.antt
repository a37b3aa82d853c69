-- ===== src/Actor/Commit.antt =====
-- src/actor.rs: optimistic concurrency, what a command has written and how it leaves the actor.
use eventfold_es.Prelude.{ℕ, zero, suc, ◌≡◌, ◌∙◌, inl, inr, some, List, [], ◌∷◌, ok}
use eventfold_es.Runtime.{Runtime, RuntimeLaws}
use eventfold_es.Aggregate.{Aggregate, IsAdjacentlyTagged}
use eventfold_es.Actor.Ops.{EventStoreOps}
use eventfold_es.Actor.Execute.{
  Actor, Request, finished, encode_all, encode_and_submit, attempt, attempts, execute_with_retry,
  max_retries,
}
use eventfold_es.Actor.Server.{IsLogServer}
use eventfold_es.Actor.Encoding.{encode_all-grows, encode_all-encodes, encode_all-new}
use eventfold_es.Actor.Coherence.{IsCoherent, IsCoherent-grow}
use eventfold_es.Actor.Submit.{
  IsCommitted, IsCommitted-none, EncodedAll-cases, handle-cases, Attempt-cases, submit-IsCoherent,
  submit-ok,
}

module _ (X : Runtime) (A : Aggregate X) (S : EventStoreOps X) (r : Request X A)
    (L : IsLogServer X S r.stream_id) where
  module _ (laws : RuntimeLaws X) (tagged : (e : A.DomainEvent) → IsAdjacentlyTagged X A e) where
    encode_and_submit-IsCoherent :
        (events : List A.DomainEvent) (a : Actor X A S)
        → IsCoherent X A S L a
        → A.handle a.state r.command ≡ ok events
        → IsCoherent X A S L (encode_and_submit X A S r events a).1
    unfolding encode_and_submit
    encode_and_submit-IsCoherent events a h dec =
        let (more, g) = encode_all-grows X A S L r events a.store in
        let grown = IsCoherent-grow X A S L a _ more g h in
        elim (EncodedAll-cases (encode_all X A S r events a.store).0) [
          | inl (ps, e) ↦
              rw (e, encode_and_submit)
                (submit-IsCoherent X A S r L laws tagged events ps _ grown dec
                  (encode_all-encodes X A S r events a.store ps e)
                  (encode_all-new X A S L r events a.store ps e))
          | inr (inl (m, e)) ↦ rw (e, encode_and_submit) grown
          | inr (inr e) ↦ rw (e, encode_and_submit) grown
        ]

    encode_and_submit-ok :
        (events es : List A.DomainEvent) (a : Actor X A S)
        → IsCoherent X A S L a
        → A.handle a.state r.command ≡ ok events
        → (encode_and_submit X A S r events a).0 ≡ finished (ok es)
        → IsCommitted X A S r L es (encode_and_submit X A S r events a).1
    unfolding encode_and_submit
    encode_and_submit-ok events es a h dec q =
        let (more, g) = encode_all-grows X A S L r events a.store in
        elim (EncodedAll-cases (encode_all X A S r events a.store).0) [
          | inl (ps, e) ↦
              rw (e, encode_and_submit)
                (submit-ok X A S r L laws tagged events es ps _
                  (IsCoherent-grow X A S L a _ more g h) dec
                  (encode_all-encodes X A S r events a.store ps e)
                  (encode_all-new X A S L r events a.store ps e) (rw (e, encode_and_submit) at q))
          | inr (inl (m, e)) ↦ cc (rw (e, encode_and_submit) at q)
          | inr (inr e) ↦ cc (rw (e, encode_and_submit) at q)
        ]

    attempt-IsCoherent :
        (a : Actor X A S) → IsCoherent X A S L a → IsCoherent X A S L (attempt X A S r a).1
    unfolding attempt
    attempt-IsCoherent a h = elim (handle-cases (A.handle a.state r.command)) [
      | inl (e, q) ↦ rw (q, attempt) h
      | inr (inl q) ↦ rw (q, attempt) h
      | inr (inr (e, es, q)) ↦ rw (q, attempt) (encode_and_submit-IsCoherent (e ∷ es) a h q)
    ]

    attempt-ok :
        (es : List A.DomainEvent) (a : Actor X A S)
        → IsCoherent X A S L a
        → (attempt X A S r a).0 ≡ finished (ok es)
        → IsCommitted X A S r L es (attempt X A S r a).1
    unfolding attempt
    attempt-ok es a h f = elim (handle-cases (A.handle a.state r.command)) [
      | inl (x, q) ↦ cc (rw (q, attempt) at f)
      | inr (inl q) ↦
          let none_decided : [] ≡ es = cc (rw (q, attempt) at f) in
          rw (q, attempt, ← none_decided) (IsCommitted-none X A S r L a h q)
      | inr (inr (x, xs, q)) ↦
          rw (q, attempt) (encode_and_submit-ok (x ∷ xs) es a h q (rw (q, attempt) at f))
    ]

    attempts-IsCoherent :
        (n : ℕ) (a : Actor X A S)
        → IsCoherent X A S L a
        → IsCoherent X A S L (attempts X A S n r a).1
    unfolding attempts
    attempts-IsCoherent zero a h = h
    attempts-IsCoherent (suc n) a h =
        let after = attempt-IsCoherent a h in
        elim (Attempt-cases (attempt X A S r a).0) [
          | inl (res, q) ↦ rw (q, attempts) after
          | inr (inl q) ↦ rw (q, attempts) (attempts-IsCoherent n (attempt X A S r a).1 after)
          | inr (inr q) ↦ rw (q, attempts) after
        ]

    attempts-ok :
        (n : ℕ) (es : List A.DomainEvent) (a : Actor X A S)
        → IsCoherent X A S L a
        → (attempts X A S n r a).0 ≡ some (ok es)
        → IsCommitted X A S r L es (attempts X A S n r a).1
    unfolding attempts
    attempts-ok zero es a h f = cc
    attempts-ok (suc n) es a h f = elim (Attempt-cases (attempt X A S r a).0) [
      | inl (res, q) ↦ rw (q, attempts) (attempt-ok es a h (q ∙ cc (rw (q, attempts) at f)))
      | inr (inl q) ↦
          rw (q, attempts)
            (attempts-ok n es (attempt X A S r a).1 (attempt-IsCoherent a h)
              (rw (q, attempts) at f))
      | inr (inr q) ↦ cc (rw (q, attempts) at f)
    ]

    -- Whatever the outcome of a command (success, domain error, conflict, transport error or
    -- panic), an actor whose state is that of a prefix of the server's log is so again afterwards, if
    -- the aggregate's events are adjacently tagged and their contents survive their JSON text.
    pub execute_with_retry-IsCoherent :
        (a : Actor X A S)
        → IsCoherent X A S L a
        → IsCoherent X A S L (execute_with_retry X A S r a).1
    unfolding execute_with_retry
    execute_with_retry-IsCoherent = attempts-IsCoherent max_retries

    -- When a command on a coherent actor returns events, or none, the server's log holds the records
    -- of exactly those events, encoded in order, directly after the log on whose replay the handler
    -- decided them; and the actor has the state and the version of the log up to its own records. The
    -- aggregate's events are adjacently tagged, and their contents survive their JSON text.
    pub execute_with_retry-IsCommitted :
        (es : List A.DomainEvent) (a : Actor X A S)
        → IsCoherent X A S L a
        → (execute_with_retry X A S r a).0 ≡ some (ok es)
        → IsCommitted X A S r L es (execute_with_retry X A S r a).1
    unfolding execute_with_retry
    execute_with_retry-IsCommitted = attempts-ok max_retries
