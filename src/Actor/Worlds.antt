-- ===== src/Actor/Worlds.antt =====
-- src/actor.rs: where an actor's calls take the outside world, as any relation that follows calls.
use eventfold_es.Prelude.{
  String, Option, ℕ, zero, suc, inl, inr, List, [], ◌∷◌, Result-cases, Bool-cases,
}
use eventfold_es.Runtime.{Runtime}
use eventfold_es.Aggregate.{Aggregate}
use eventfold_es.Event.{ProposedEventData, encode_domain_event, stream_uuid}
use eventfold_es.Io.{FilePath, Disk}
use eventfold_es.Snapshot.{Snapshot, load_snapshot}
use eventfold_es.Client.{ExpectedVersionArg, any}
use eventfold_es.Actor.Ops.{EventStoreOps}
use eventfold_es.Actor.Execute.{
  Actor, Request, read_from, expected_version, reread, submit, encode_all, encode_and_submit,
  attempt, attempts, execute_with_retry, u64_max, max_retries,
}
use eventfold_es.Actor.Encoding.{Encoded-cases, add_proposed-world}
use eventfold_es.Actor.Submit.{EncodedAll-cases, handle-cases, Attempt-cases}
use eventfold_es.Actor.Lifecycle.{
  Context, Received, execute, get_state, inject, shutdown, closed, elapsed, Task, refresh,
  inject_event, serve, start_from, catch_up_from, spawn_actor_with_store,
}
use eventfold_es.Actor.Service.{answer_execute-actor}

-- A relation that holds along every sequence of calls.
pub record IsFollowed (X : Runtime) (S : EventStoreOps X) (R : S.W → S.W → Type 0) : Type 0 where
  pub stays : (w : S.W) → R w w
  pub follows : (u v w : S.W) → R u v → R v w → R u w
  pub appends :
      (stream : X.Uuid) (expected : ExpectedVersionArg) (ps : List (ProposedEventData X)) (w : S.W)
      → R w (S.append stream expected ps w).1
  pub reads : (stream : X.Uuid) (from : ℕ) (w : S.W) → R w (S.read_stream stream from u64_max w).1
  pub draws : (w : S.W) → R w (S.new_v4 w).1

module _ (X : Runtime) (A : Aggregate X) (S : EventStoreOps X) {R : S.W → S.W → Type 0}
    (F : IsFollowed X S R) where
  module _ (r : Request X A) where
    reread-follows : (a : Actor X A S) → R a.store (reread X A S r a).1.store
    unfolding reread
    reread-follows a =
        let from = read_from a.stream_version in
        elim (Result-cases (S.read_stream r.stream_id from u64_max a.store).0) [
          | inl (es, e) ↦ rw (e, reread) (F.reads r.stream_id from a.store)
          | inr (st, e) ↦ rw (e, reread) (F.reads r.stream_id from a.store)
        ]

    encode_all-follows : (es : List A.DomainEvent) (w : S.W) → R w (encode_all X A S r es w).1
    unfolding encode_all
    encode_all-follows [] w = F.stays w
    encode_all-follows (e ∷ es) w =
        let id = (S.new_v4 w).0 in
        let c = encode_domain_event X A id e r.context A.aggregate_type r.instance_id in
        elim (Encoded-cases c) [
          | inl (p, q) ↦
              rw (q, encode_all)
                (rw add_proposed-world
                  (F.follows w _ _ (F.draws w) (encode_all-follows es (S.new_v4 w).1)))
          | inr (inl (t, q)) ↦ rw (q, encode_all) (F.stays w)
          | inr (inr q) ↦ rw (q, encode_all) (F.stays w)
        ]

    submit-follows :
        (es : List A.DomainEvent) (ps : List (ProposedEventData X)) (a : Actor X A S)
        → R a.store (submit X A S r es ps a).1.store
    unfolding submit
    submit-follows es ps a =
        let expected = expected_version a.stream_version in
        let one = F.appends r.stream_id expected ps a.store in
        elim (Result-cases (S.append r.stream_id expected ps a.store).0) [
          | inl (resp, e) ↦ rw (e, submit) one
          | inr (st, e) ↦ elim (Bool-cases (X.failed_precondition st)) [
            | inl c ↦
                let a' : Actor X A S = record a {
                  store = (S.append r.stream_id expected ps a.store).1;
                } in
                rw (e, c, submit) (F.follows _ _ _ one (reread-follows a'))
            | inr c ↦ rw (e, c, submit) one
          ]
        ]

    attempt-follows : (a : Actor X A S) → R a.store (attempt X A S r a).1.store
    unfolding attempt
    attempt-follows a = elim (handle-cases (A.handle a.state r.command)) [
      | inl (e, q) ↦ rw (q, attempt) (F.stays a.store)
      | inr (inl q) ↦ rw (q, attempt) (F.stays a.store)
      | inr (inr (e, es, q)) ↦
          let w = (encode_all X A S r (e ∷ es) a.store).1 in
          let drawn = encode_all-follows (e ∷ es) a.store in
          rw (q, attempt)
            (elim (EncodedAll-cases (encode_all X A S r (e ∷ es) a.store).0) [
              | inl (ps, c) ↦
                  rw (c, encode_and_submit)
                    (F.follows _ _ _ drawn (submit-follows (e ∷ es) ps (record a { store = w })))
              | inr (inl (t, c)) ↦ rw (c, encode_and_submit) drawn
              | inr (inr c) ↦ rw (c, encode_and_submit) drawn
            ])
    ]

    attempts-follows : (n : ℕ) (a : Actor X A S) → R a.store (attempts X A S n r a).1.store
    unfolding attempts
    attempts-follows zero a = F.stays a.store
    attempts-follows (suc n) a =
        let one = attempt-follows a in
        let a' = (attempt X A S r a).1 in
        elim (Attempt-cases (attempt X A S r a).0) [
          | inl (res, q) ↦ rw (q, attempts) one
          | inr (inl q) ↦ rw (q, attempts) (F.follows _ _ _ one (attempts-follows n a'))
          | inr (inr q) ↦ rw (q, attempts) one
        ]

  refresh-follows : (c : Context X) (a : Actor X A S) → R a.store (refresh X A S c a).store
  unfolding refresh
  refresh-follows c a =
      let from = read_from a.stream_version in
      elim (Result-cases (S.read_stream c.stream_id from u64_max a.store).0) [
        | inl (es, e) ↦ rw (e, refresh) (F.reads c.stream_id from a.store)
        | inr (st, e) ↦ rw (e, refresh) (F.reads c.stream_id from a.store)
      ]

  inject_event-follows :
      (c : Context X) (p : ProposedEventData X) (a : Actor X A S)
      → R a.store (inject_event X A S c p a).1.store
  unfolding inject_event
  inject_event-follows c p a =
      let one = F.appends c.stream_id any (p ∷ []) a.store in
      let a' : Actor X A S = record a { store = (S.append c.stream_id any (p ∷ []) a.store).1 } in
      elim (Result-cases (S.append c.stream_id any (p ∷ []) a.store).0) [
        | inl (resp, e) ↦ rw (e, inject_event) (F.follows _ _ _ one (refresh-follows c a'))
        | inr (st, e) ↦ rw (e, inject_event) one
      ]

  -- One message leads the world along its calls.
  pub serve-follows :
      (c : Context X) (m : Received X A) (t : Task X A S)
      → R t.actor.store (serve X A S c m t).actor.store
  unfolding serve execute_with_retry
  serve-follows c (execute command context) t =
      rw answer_execute-actor (attempts-follows _ max_retries t.actor)
  serve-follows c get_state t = F.stays t.actor.store
  serve-follows c (inject p) t = inject_event-follows c p t.actor
  serve-follows c shutdown t = F.stays t.actor.store
  serve-follows c closed t = F.stays t.actor.store
  serve-follows c elapsed t = F.stays t.actor.store

  pub catch_up_from-follows :
      (stream : X.Uuid) (snapshot : Option (Snapshot X A)) (w : S.W)
      → R w (catch_up_from X A S stream snapshot w).1
  unfolding catch_up_from start_from
  catch_up_from-follows stream snapshot w =
      let from = (start_from X A S snapshot).2 in
      elim (Result-cases (S.read_stream stream from u64_max w).0) [
        | inl (es, e) ↦ rw (e, catch_up_from) (F.reads stream from w)
        | inr (st, e) ↦ rw (e, catch_up_from) (F.reads stream from w)
      ]

  -- Spawning an actor, too.
  pub spawn-follows :
      (id : String) (base_dir : FilePath) (w : S.W) (d : Disk X.Bytes)
      → R w (spawn_actor_with_store X A S id base_dir w d).0.1
  unfolding spawn_actor_with_store
  spawn-follows id base_dir w d = elim (Result-cases (load_snapshot X A base_dir id d).0) [
    | inl (snapshot, q) ↦
        rw (q, spawn_actor_with_store)
          (catch_up_from-follows (stream_uuid X A.aggregate_type id) snapshot w)
    | inr (e, q) ↦ rw (q, spawn_actor_with_store) (F.stays w)
  ]
