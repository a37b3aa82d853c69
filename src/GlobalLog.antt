-- ===== src/GlobalLog.antt =====
-- What the readers rely on of the event store: one append-only global log, and subscriptions that
-- deliver it in order from a position.
use mathlib.Core.List
use eventfold_es.Prelude.{
  Option, ℕ, ◌<◌, ◌≡◌, refl, sym, ◌∙◌, ap, inl, inr, Bool, true, false, none, some, List, [], ◌∷◌,
  ◌++◌, append_assoc, append-nil, ok, err, arith, ltb, All, Bool-cases,
}
use eventfold_es.Runtime.{Runtime}
use eventfold_es.Event.{RecordedEvent}
use eventfold_es.Client.{Grpc}
use eventfold_es.Client.Proto.{Content, event, caught_up}
use eventfold_es.Cursor.{
  Cursor, Item, IsShort, from_position, events_of, failure_of, consume, consume-append,
  consume_again, consume-below, consume-from_position,
}

module _ {X : Runtime} where
  -- The stream says that it has delivered all that there was.
  unfoldable pub is_caught_up : List (Item X) → Bool
  is_caught_up [] = false
  is_caught_up (err status ∷ rest) = false
  is_caught_up (ok response ∷ rest) =
      let later = is_caught_up rest in
      elim response.content [ none ↦ later | some (event r) ↦ later | some caught_up ↦ true ]

module _ {X : Runtime} where
  failure_of-response :
      (o : Option (Content X)) (rest : List (Item X))
      → (is_caught_up rest ≡ true → failure_of rest ≡ none)
      → is_caught_up (ok (record { content = o }) ∷ rest) ≡ true
      → failure_of (ok (record { content = o }) ∷ rest) ≡ none
  unfolding is_caught_up failure_of
  failure_of-response none rest ih h = ih h
  failure_of-response (some (event r)) rest ih h = ih h
  failure_of-response (some caught_up) rest ih h = refl

  -- A stream that has caught up has not failed before.
  pub failure_of-caught_up :
      (items : List (Item X)) → is_caught_up items ≡ true → failure_of items ≡ none
  unfolding is_caught_up failure_of
  failure_of-caught_up [] h = refl
  failure_of-caught_up (err status ∷ rest) h = cc
  failure_of-caught_up (ok response ∷ rest) h =
      failure_of-response response.content rest (failure_of-caught_up rest) h

pub record IsGlobalLog (X : Runtime) (G : Grpc X) : Type 0 where
  pub log : G.W → List (RecordedEvent X)
  -- Positions are `uint64`.
  pub short : (w : G.W) → IsShort X (log w)
  -- A stream that breaks or ends early has delivered a part, from the front.
  pub after_subscribe :
      (p : ℕ) (w : G.W) (stream : List (Item X))
      → (G.subscribe_all p w).0 ≡ ok stream
      → (before later undelivered : List (RecordedEvent X)) × (log (G.subscribe_all p w).1
          ≡ (log w ++ before) ++ later)
        × (from_position p (log w ++ before) ≡ events_of stream ++ undelivered)
        × (is_caught_up stream ≡ true → undelivered ≡ [])
  pub after_failed_subscribe :
      (p : ℕ) (w : G.W) (status : X.Status)
      → (G.subscribe_all p w).0 ≡ err status
      → (more : List (RecordedEvent X)) × (log (G.subscribe_all p w).1 ≡ log w ++ more)

module _ {X : Runtime} where
  pub IsShort-append_left : (xs ys : List (RecordedEvent X)) → IsShort X (xs ++ ys) → IsShort X xs
  IsShort-append_left [] ys h = tt
  IsShort-append_left (x ∷ xs) ys h = (h.0, IsShort-append_left xs ys h.1)

  IsShort-append_right : (xs ys : List (RecordedEvent X)) → IsShort X (xs ++ ys) → IsShort X ys
  IsShort-append_right [] ys h = h
  IsShort-append_right (x ∷ xs) ys h = IsShort-append_right xs ys h.1

  pub from_position-stale :
      (p : ℕ) (xs ys : List (RecordedEvent X))
      → All (λ r. r.global_position < p) xs
      → from_position p (xs ++ ys) ≡ from_position p ys
  unfolding from_position
  from_position-stale p [] ys h = refl
  from_position-stale p (x ∷ xs) ys h =
      let e : ltb x.global_position p ≡ true = ground (arith, h.0) in
      rw e (from_position-stale p xs ys h.1)

  -- A part of what a position selects is what it selects of a part.
  pub split_from_position :
      (p : ℕ) (l xs ys : List (RecordedEvent X))
      → from_position p l ≡ xs ++ ys
      → (l1 l2 : List (RecordedEvent X)) × (l ≡ l1 ++ l2) × (from_position p l1 ≡ xs)
  unfolding from_position
  split_from_position p l [] ys h = ([], l, refl, refl)
  split_from_position p [] (x ∷ xs) ys h = cc
  split_from_position p (r ∷ l) (x ∷ xs) ys h = elim (Bool-cases (ltb r.global_position p)) [
    | inl e ↦
        let (l1, l2, whole, part) = split_from_position p l (x ∷ xs) ys (rw e at h) in
        (r ∷ l1, l2, ap (λ t. r ∷ t) whole, rw e part)
    | inr e ↦
        let (l1, l2, whole, part) =
          split_from_position p l xs ys (List.tail-eq_of_cons-eq (rw e at h)) in
        (r ∷ l1, l2, ap (λ t. r ∷ t) whole, rw e (cc (List.head-eq_of_cons-eq (rw e at h), part)))
  ]

module _ {X : Runtime} {C : Type 0} (K : Cursor X C) (start : C) where
  -- A reader stands behind a prefix of the log.
  pub record IsBehind (log : List (RecordedEvent X)) (c : C) : Type 0 where
    pub seen : List (RecordedEvent X)
    pub rest : List (RecordedEvent X)
    pub whole : log ≡ seen ++ rest
    pub here : c ≡ consume K start seen

  -- Reading any part of what its own position selects keeps it so, and a complete part brings it
  -- to the end of the log.
  pub IsBehind-consume :
      (log : List (RecordedEvent X)) (c : C) (part undelivered : List (RecordedEvent X))
      → IsShort X log
      → IsBehind log c
      → from_position (K.position c) log ≡ part ++ undelivered
      → IsBehind log (consume K c part)
  IsBehind-consume log c part undelivered short h e = record {
    seen = h.seen ++ split.0;
    rest = split.1;
    whole = h.whole ∙ ap (λ l. h.seen ++ l) split.2 ∙ sym (append_assoc h.seen split.0 split.1);
    here =
        ap (consume K c) (sym split.3)
        ∙ consume-from_position K (K.position c) c split.0 (omega arith) part_short
        ∙ ap (λ x. consume K x split.0) h.here
        ∙ sym (consume-append K start h.seen split.0);
  }
    where
      stale : All (λ r. r.global_position < K.position c) h.seen
      stale =
          rw h.here
            (consume-below K start h.seen (IsShort-append_left h.seen h.rest (rw h.whole at short)))

      split :
          (l1 l2 : List (RecordedEvent X)) × (h.rest ≡ l1 ++ l2)
          × (from_position (K.position c) l1 ≡ part)
      split = split_from_position (K.position c) h.rest part undelivered (
          sym (from_position-stale (K.position c) h.seen h.rest stale)
          ∙ ap (from_position (K.position c)) (sym h.whole)
          ∙ e)

      part_short : IsShort X split.0
      part_short =
          IsShort-append_left split.0 split.1
            (rw split.2 at (IsShort-append_right h.seen h.rest (rw h.whole at short)))

  pub IsBehind-grow :
      (log more : List (RecordedEvent X)) (c : C) → IsBehind log c → IsBehind (log ++ more) c
  IsBehind-grow log more c h = record {
    seen = h.seen;
    rest = h.rest ++ more;
    whole = ap (λ l. l ++ more) h.whole ∙ append_assoc h.seen h.rest more;
    here = h.here;
  }

  pub IsBehind-start : (log : List (RecordedEvent X)) → IsBehind log start
  unfolding consume
  IsBehind-start log = record { seen = []; rest = log; whole = refl; here = refl }

  -- A complete delivery brings the reader to where reading the whole log from the start does.
  pub consume_complete :
      (log : List (RecordedEvent X)) (c : C)
      → IsShort X log
      → IsBehind log c
      → consume K c (from_position (K.position c) log) ≡ consume K start log
  consume_complete log c short h =
      let short' : IsShort X (h.seen ++ h.rest) = rw h.whole at short in
      consume-from_position K (K.position c) c log (omega arith) short
      ∙ ap (λ x. consume K x log) h.here
      ∙ ap (consume K (consume K start h.seen)) h.whole
      ∙ consume-append K (consume K start h.seen) h.seen h.rest
      ∙ ap (λ x. consume K x h.rest)
          (consume_again K start h.seen (IsShort-append_left h.seen h.rest short'))
      ∙ sym (consume-append K start h.seen h.rest)
      ∙ ap (consume K start) (sym h.whole)

  -- One subscription from the reader's position, whatever it delivers.
  pub IsBehind-subscribe :
      (G : Grpc X) (L : IsGlobalLog X G) (c : C) (w : G.W) (stream : List (Item X))
      → (G.subscribe_all (K.position c) w).0 ≡ ok stream
      → IsBehind (L.log w) c
      → IsBehind (L.log (G.subscribe_all (K.position c) w).1) (consume K c (events_of stream))
  IsBehind-subscribe G L c w stream e h =
      let out = L.after_subscribe (K.position c) w stream e in
      let short =
        IsShort-append_left (L.log w ++ out.0) out.1
          (rw (out.3) at (L.short (G.subscribe_all (K.position c) w).1)) in
      rw (out.3) (
        IsBehind-grow (L.log w ++ out.0) out.1 _ (
          IsBehind-consume (L.log w ++ out.0) c (events_of stream) out.2 short
            (IsBehind-grow (L.log w) out.0 c h) out.4))

  pub complete-subscribe :
      (G : Grpc X) (L : IsGlobalLog X G) (c : C) (w : G.W) (stream : List (Item X))
      → (G.subscribe_all (K.position c) w).0 ≡ ok stream
      → is_caught_up stream ≡ true
      → IsBehind (L.log w) c
      → (before : List (RecordedEvent X)) × (consume K c (events_of stream)
          ≡ consume K start (L.log w ++ before))
  complete-subscribe G L c w stream e done h =
      let out = L.after_subscribe (K.position c) w stream e in
      let short =
        IsShort-append_left (L.log w ++ out.0) out.1
          (rw (out.3) at (L.short (G.subscribe_all (K.position c) w).1)) in
      let all : from_position (K.position c) (L.log w ++ out.0) ≡ events_of stream =
        out.4 ∙ ap (λ l. events_of stream ++ l) (out.5 done) ∙ append-nil (events_of stream) in
      (
        out.0,
        ap (consume K c) (sym all)
            ∙ consume_complete (L.log w ++ out.0) c short (IsBehind-grow (L.log w) out.0 c h),
      )
