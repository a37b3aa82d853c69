-- ===== src/Live/Loop/Reading.antt =====
-- src/live.rs, `run_live_loop`: a reader in the midst of one of the streams that the loop reads.
use eventfold_es.Prelude.{
  ℕ, ◌≤◌, ◌<◌, ◌≡◌, refl, sym, ap, ◌∙◌, ◌⊎◌, inl, inr, some, List, [], ◌∷◌, ◌++◌, append_assoc, ok,
  All, arith, ltb, Bool-cases,
}
use mathlib.Core.List
use eventfold_es.Runtime.{Runtime}
use eventfold_es.Event.{RecordedEvent}
use eventfold_es.Client.{Grpc}
use eventfold_es.Client.Proto.{event}
use eventfold_es.Cursor.{
  Cursor, Item, IsShort, consume, consume-append, consume_again, consume-stale, consume-below,
  consume-from_position, from_position, position-consume,
}
use eventfold_es.GlobalLog.{IsBehind, IsBehind-consume, split_from_position, IsShort-append_left}
use eventfold_es.Actor.Fleet.{All-map}
use eventfold_es.Live.Fanout.{live_events}

-- A log long enough to hold all that the subscriptions of a run deliver: each delivers, in order and
-- from the front, events of this log from the position that it asked for.
pub record IsHistory (X : Runtime) (G : Grpc X) (history : List (RecordedEvent X)) : Type 0 where
  pub short : IsShort X history
  pub delivers :
      (p : ℕ) (w : G.W) (stream : List (Item X))
      → (G.subscribe_all p w).0 ≡ ok stream
      → (undelivered : List (RecordedEvent X)) × (from_position p history
          ≡ live_events stream ++ undelivered)

-- Of two prefixes of a list, one is a prefix of the other.
prefix-cases {ℓ} :
    {A : Type ℓ} (xs us ys vs : List A)
    → xs ++ ys ≡ us ++ vs
    → ((more : List A) × (us ≡ xs ++ more)) ⊎ ((more : List A) × (xs ≡ us ++ more))
prefix-cases [] us ys vs h = inl (us, refl)
prefix-cases (x ∷ xs) [] ys vs h = inr (x ∷ xs, refl)
prefix-cases (x ∷ xs) (u ∷ us) ys vs h =
    let same : x ≡ u = List.head-eq_of_cons-eq h in
    elim (prefix-cases xs us ys vs (List.tail-eq_of_cons-eq h)) [
      | inl (more, e) ↦ inl (more, cc)
      | inr (more, e) ↦ inr (more, cc)
    ]

All-append_left {ℓ κ} : {A : Type ℓ} (P : A → Type κ) (xs ys : List A) → All P (xs ++ ys) → All P xs
All-append_left P [] ys h = tt
All-append_left P (x ∷ xs) ys h = (h.0, All-append_left P xs ys h.1)

All-middle {ℓ κ} :
    {A : Type ℓ} (P : A → Type κ) (xs : List A) (y : A) (ys : List A) → All P (xs ++ y ∷ ys) → P y
All-middle P [] y ys h = h.0
All-middle P (x ∷ xs) y ys h = All-middle P xs y ys h.1

pub All-among {ℓ κ} :
    {A : Type ℓ} (P : A → Type κ) (l xs : List A) (y : A) (ys : List A)
    → l ≡ xs ++ y ∷ ys
    → All P l
    → P y
All-among P l xs y ys e h = All-middle P xs y ys (rw e at h)

IsShort-from_position :
    {X : Runtime} (p : ℕ) (l : List (RecordedEvent X)) → IsShort X l → IsShort X (from_position p l)
unfolding from_position
IsShort-from_position p [] h = h
IsShort-from_position p (r ∷ l) h = elim (Bool-cases (ltb r.global_position p)) [
  | inl e ↦ rw e (IsShort-from_position p l h.1)
  | inr e ↦ rw e (h.0, IsShort-from_position p l h.1)
]

module _ {X : Runtime} {C : Type 0} (K : Cursor X C) (start : C) where
  -- Reading a prefix of the log from its start again, at most to skip it.
  consume_prefix :
      (log : List (RecordedEvent X)) (c : C) (l1 l2 : List (RecordedEvent X))
      → IsShort X log
      → IsBehind K start log c
      → log ≡ l1 ++ l2
      → IsBehind K start log (consume K c l1)
  consume_prefix log c l1 l2 short h cut =
      let seen_short = IsShort-append_left h.seen h.rest (rw h.whole at short) in
      elim (prefix-cases h.seen l1 h.rest l2 (sym h.whole ∙ cut)) [
        | inl (more, longer) ↦ record {
          seen = l1;
          rest = l2;
          whole = cut;
          here =
              ap (consume K c) longer
              ∙ consume-append K c h.seen more
              ∙ ap (λ x. consume K (consume K x h.seen) more) h.here
              ∙ ap (λ x. consume K x more) (consume_again K start h.seen seen_short)
              ∙ sym (consume-append K start h.seen more)
              ∙ ap (consume K start) (sym longer);
        }
        | inr (more, shorter) ↦
            let below : All (λ r. r.global_position < K.position c) h.seen =
              rw h.here (consume-below K start h.seen seen_short) in
            let stale : All (λ r. r.global_position < K.position c) l1 =
              All-append_left (λ r. r.global_position < K.position c) l1 more
                (rw shorter at below) in
            rw (consume-stale K c l1 stale) h
      ]

  module _ (history : List (RecordedEvent X)) where
    -- A reader in the midst of a stream, which it began behind a prefix of the log, from a position
    -- that it had passed.
    pub record IsReading (rest : List (Item X)) (c : C) : Type 0 where
      pub from : ℕ
      pub began : C
      pub done : List (RecordedEvent X)
      pub undelivered : List (RecordedEvent X)
      pub behind : IsBehind K start history began
      pub passed : from ≤ K.position began
      pub selected : from_position from history ≡ done ++ (live_events rest ++ undelivered)
      pub now : c ≡ consume K began done

    pub IsReading-IsBehind :
        (rest : List (Item X)) (c : C)
        → IsShort X history
        → IsReading rest c
        → IsBehind K start history c
    IsReading-IsBehind rest c short h =
        let (l1, l2, cut, part) =
          split_from_position h.from history h.done (live_events rest ++ h.undelivered)
            h.selected in
        let l1_short = IsShort-append_left l1 l2 (rw cut at short) in
        let same : consume K h.began l1 ≡ c =
          sym (consume-from_position K h.from h.began l1 h.passed l1_short)
          ∙ ap (consume K h.began) part
          ∙ sym h.now in
        rw (← same) (consume_prefix history h.began l1 l2 short h.behind cut)

    -- Reading the next event.
    pub IsReading-event :
        (r : RecordedEvent X) (rest : List (Item X)) (c : C)
        → IsReading (ok (record { content = some (event r) }) ∷ rest) c
        → IsReading rest (K.step c r)
    unfolding live_events consume
    IsReading-event r rest c h = record {
      from = h.from;
      began = h.began;
      done = h.done ++ r ∷ [];
      undelivered = h.undelivered;
      behind = h.behind;
      passed = h.passed;
      selected =
          h.selected ∙ sym (append_assoc h.done (r ∷ []) (live_events rest ++ h.undelivered));
      now = ap (λ x. K.step x r) h.now ∙ sym (consume-append K h.began h.done (r ∷ []));
    }

    -- Reading what is no event.
    pub IsReading-other :
        (items rest : List (Item X)) (c : C)
        → live_events items ≡ live_events rest
        → IsReading items c
        → IsReading rest c
    IsReading-other items rest c same h = record {
      from = h.from;
      began = h.began;
      done = h.done;
      undelivered = h.undelivered;
      behind = h.behind;
      passed = h.passed;
      selected = h.selected ∙ ap (λ l. h.done ++ (l ++ h.undelivered)) same;
      now = h.now;
    }

    pub IsReading-begin :
        (p : ℕ) (stream : List (Item X)) (c : C) (undelivered : List (RecordedEvent X))
        → from_position p history ≡ live_events stream ++ undelivered
        → p ≤ K.position c
        → IsBehind K start history c
        → IsReading stream c
    unfolding consume
    IsReading-begin p stream c undelivered e le h = record {
      from = p;
      began = c;
      done = [];
      undelivered = undelivered;
      behind = h;
      passed = le;
      selected = e;
      now = refl;
    }

    -- The reader reads on by itself, from where it stands: what it has passed, the stream still
    -- delivers, and it skips it.
    pub IsReading-jump :
        (rest : List (Item X)) (c : C) (part beyond : List (RecordedEvent X))
        → IsShort X history
        → IsReading rest c
        → from_position (K.position c) history ≡ part ++ beyond
        → IsReading rest (consume K c part)
    IsReading-jump rest c part beyond short h e = record {
      from = h.from;
      began = consume K c part;
      done = h.done;
      undelivered = h.undelivered;
      behind =
          IsBehind-consume K start history c part beyond short (IsReading-IsBehind rest c short h)
            e;
      passed = omega (arith, h.passed, read, on);
      selected = h.selected;
      now = sym (
          consume-stale K (consume K c part) h.done (
            All-map (λ r. r.global_position < K.position c)
              (λ r. r.global_position < K.position (consume K c part)) h.done
              (λ r below. omega (arith, below, on)) passed_over));
    }
      where
        done_short : IsShort X h.done
        done_short =
            IsShort-append_left h.done (live_events rest ++ h.undelivered)
              (rw h.selected at (IsShort-from_position h.from history short))

        read : K.position h.began ≤ K.position c
        read = rw h.now (position-consume K h.began h.done done_short)

        on : K.position c ≤ K.position (consume K c part)
        on = position-consume K c part (
            IsShort-append_left part beyond
              (rw e at (IsShort-from_position (K.position c) history short)))

        passed_over : All (λ r. r.global_position < K.position c) h.done
        passed_over = rw h.now (consume-below K h.began h.done done_short)
