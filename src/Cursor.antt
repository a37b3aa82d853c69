-- ===== src/Cursor.antt =====
-- Readers of the global log that remember a position: what projections and process managers share.
-- The interface says what one event does to a reader.
use eventfold_es.Prelude.{
  ℕ, ◌+◌, ◌≤◌, ◌<◌, ◌≡◌, refl, ap, sym, ◌∙◌, inl, inr, Option, none, some, List, [], ◌∷◌, ◌++◌,
  Result, ok, err, arith, ltb, if◌then◌else◌, u64_mod, All, Bool-cases,
}
use eventfold_es.Runtime.{Runtime}
use eventfold_es.Event.{RecordedEvent}
use eventfold_es.Client.Proto.{SubscribeResponse, event, caught_up}

pub record Cursor (X : Runtime) (C : Type 0) : Type 0 where
  pub position : C → ℕ
  pub step : C → RecordedEvent X → C
  -- An event below the position changes nothing.
  pub skips : (c : C) (r : RecordedEvent X) → r.global_position < position c → step c r ≡ c
  -- Any other moves the position behind it, if positions do not wrap.
  pub advances :
      (c : C) (r : RecordedEvent X)
      → position c ≤ r.global_position
      → r.global_position + 1 < u64_mod
      → position (step c r) ≡ r.global_position + 1

-- Positions that a `u64` can step behind.
abbrev pub IsShort : (X : Runtime) → List (RecordedEvent X) → Type 0
IsShort X = All (λ r. r.global_position + 1 < u64_mod)

-- An item of a subscription's stream.
abbrev pub Item : Runtime → Type 0
Item X = Result (SubscribeResponse X) X.Status

module _ {X : Runtime} where
  -- What a subscription from `p` delivers of a log.
  unfoldable pub from_position : ℕ → List (RecordedEvent X) → List (RecordedEvent X)
  from_position p [] = []
  from_position p (r ∷ rs) =
      let rest = from_position p rs in if ltb r.global_position p then rest else r ∷ rest

  -- The events before the stream breaks, catches up or ends.
  unfoldable pub events_of : List (Item X) → List (RecordedEvent X)
  events_of [] = []
  events_of (err status ∷ rest) = []
  events_of (ok response ∷ rest) =
      let later = events_of rest in
      elim response.content [ none ↦ later | some (event r) ↦ r ∷ later | some caught_up ↦ [] ]

  -- The error that ends it, if one does.
  unfoldable pub failure_of : List (Item X) → Option X.Status
  failure_of [] = none
  failure_of (err status ∷ rest) = some status
  failure_of (ok response ∷ rest) =
      let later = failure_of rest in
      elim response.content [ none ↦ later | some (event r) ↦ later | some caught_up ↦ none ]

module _ {X : Runtime} {C : Type 0} (K : Cursor X C) where
  unfoldable pub consume : C → List (RecordedEvent X) → C
  consume c [] = c
  consume c (r ∷ rs) = consume (K.step c r) rs

  pub consume-append :
      (c : C) (rs ts : List (RecordedEvent X)) → consume c (rs ++ ts) ≡ consume (consume c rs) ts
  unfolding consume
  consume-append c [] ts = refl
  consume-append c (r ∷ rs) ts = consume-append (K.step c r) rs ts

  step-grows :
      (c : C) (r : RecordedEvent X)
      → r.global_position + 1 < u64_mod
      → (K.position c ≤ K.position (K.step c r)) × (r.global_position < K.position (K.step c r))
  step-grows c r h = elim (Bool-cases (ltb r.global_position (K.position c))) [
    | inl e ↦
        let old : r.global_position < K.position c = ground arith in
        rw (K.skips c r old) (omega arith, old)
    | inr e ↦
        let new : K.position c ≤ r.global_position = ground arith in
        rw (K.advances c r new h) (omega arith, omega arith)
  ]

  pub position-consume :
      (c : C) (rs : List (RecordedEvent X))
      → IsShort X rs
      → K.position c ≤ K.position (consume c rs)
  unfolding consume
  position-consume c [] h = omega arith
  position-consume c (r ∷ rs) h =
      omega (arith, step-grows c r h.0, position-consume (K.step c r) rs h.1)

  -- A reader is behind nothing that it has read.
  pub consume-below :
      (c : C) (rs : List (RecordedEvent X))
      → IsShort X rs
      → All (λ r. r.global_position < K.position (consume c rs)) rs
  unfolding consume
  consume-below c [] h = tt
  consume-below c (r ∷ rs) h = (
    omega (arith, step-grows c r h.0, position-consume (K.step c r) rs h.1),
    consume-below (K.step c r) rs h.1,
  )

  pub consume-stale :
      (c : C) (rs : List (RecordedEvent X))
      → All (λ r. r.global_position < K.position c) rs
      → consume c rs ≡ c
  unfolding consume
  consume-stale c [] h = refl
  consume-stale c (r ∷ rs) h = rw (K.skips c r h.0) (consume-stale c rs h.1)

  -- Reading again what was read changes nothing: redelivery is harmless.
  pub consume_again :
      (c : C) (rs : List (RecordedEvent X))
      → IsShort X rs
      → consume (consume c rs) rs ≡ consume c rs
  consume_again c rs h = consume-stale (consume c rs) rs (consume-below c rs h)

  -- A subscription from any position that the reader has passed serves as well as the whole log.
  pub consume-from_position :
      (p : ℕ) (c : C) (rs : List (RecordedEvent X))
      → p ≤ K.position c
      → IsShort X rs
      → consume c (from_position p rs) ≡ consume c rs
  unfolding consume from_position
  consume-from_position p c [] le h = refl
  consume-from_position p c (r ∷ rs) le h =
      let grown = step-grows c r h.0 in
      let ih = consume-from_position p (K.step c r) rs (omega arith) h.1 in
      elim (Bool-cases (ltb r.global_position p)) [
        | inl e ↦
            let old : r.global_position < K.position c = ground arith in
            let ih' = consume-from_position p c rs le h.1 in rw (e, K.skips c r old) ih'
        | inr e ↦ rw e ih
      ]

  -- A reader that has read a log, and then reads the grown log from a position that it has passed,
  -- stands where one that reads the grown log from the start does.
  pub consume_resumed :
      (c : C) (rs ts : List (RecordedEvent X)) (p : ℕ)
      → IsShort X rs
      → IsShort X (rs ++ ts)
      → p ≤ K.position (consume c rs)
      → consume (consume c rs) (from_position p (rs ++ ts)) ≡ consume c (rs ++ ts)
  consume_resumed c rs ts p h ht le =
      consume-from_position p (consume c rs) (rs ++ ts) le ht
      ∙ consume-append (consume c rs) rs ts
      ∙ ap (λ x. consume x ts) (consume_again c rs h)
      ∙ sym (consume-append c rs ts)
