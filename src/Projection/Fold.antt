-- ===== src/Projection/Fold.antt =====
-- src/projection.rs: the state of a projection as a plain fold over the log's decoded events.
use eventfold_es.Prelude.{
  ℕ, ◌+◌, ◌≤◌, ◌<◌, ◌≡◌, refl, ap, ◌∙◌, inl, inr, false, none, some, List, [], ◌∷◌, ◌++◌, length,
  arith, ltb, u64_mod, next_u64-eq, Option-cases,
}
use eventfold_es.Runtime.{Runtime}
use eventfold_es.Event.{RecordedEvent, StoredEvent, decode_stored_event}
use eventfold_es.Cursor.{IsShort, consume}
use eventfold_es.Projection.{Projection, ProjectionCheckpoint, apply_recorded_event}
use eventfold_es.Projection.Stream.{projection_cursor}

module _ {X : Runtime} where
  -- The events of the log that can be decoded.
  abbrev pub stored : List (RecordedEvent X) → List (StoredEvent X)
  stored [] = []
  stored (r ∷ rs) =
      let rest = stored rs in
      elim (decode_stored_event X r) [ none ↦ rest | some event ↦ event ∷ rest ]

  -- Global positions grow along the log, from at least `p`.
  abbrev pub AreAscending : ℕ → List (RecordedEvent X) → Type 0
  AreAscending p [] = Unit {0}
  AreAscending p (r ∷ rs) = (p ≤ r.global_position) × AreAscending (r.global_position + 1) rs

  pub AreAscending-append_left :
      (p : ℕ) (xs ys : List (RecordedEvent X)) → AreAscending p (xs ++ ys) → AreAscending p xs
  AreAscending-append_left p [] ys h = tt
  AreAscending-append_left p (x ∷ xs) ys h =
      (h.0, AreAscending-append_left (x.global_position + 1) xs ys h.1)

  -- Such a log is no longer than the positions allow.
  pub length-AreAscending :
      (p : ℕ) (rs : List (RecordedEvent X))
      → p < u64_mod
      → AreAscending p rs
      → IsShort X rs
      → p + length rs < u64_mod
  length-AreAscending p [] room h short = omega arith
  length-AreAscending p (r ∷ rs) room h short =
      omega (arith, h.0, length-AreAscending (r.global_position + 1) rs short.0 h.1 short.1)

  pub length-stored : (rs : List (RecordedEvent X)) → length (stored rs) ≤ length rs
  length-stored [] = omega arith
  length-stored (r ∷ rs) = elim (Option-cases (decode_stored_event X r)) [
    | inl e ↦ rw (e, stored) (omega (arith, length-stored rs))
    | inr (event, e) ↦ rw (e, stored) (omega (arith, length-stored rs))
  ]

module _ (X : Runtime) (P : Projection X) where
  abbrev pub fold : P.State → List (StoredEvent X) → P.State
  fold s [] = s
  fold s (event ∷ rest) = fold (P.apply s event) rest

  -- Reading a log in order applies each event that can be decoded, once.
  pub consume-fold :
      (c : ProjectionCheckpoint X P) (rs : List (RecordedEvent X))
      → IsShort X rs
      → AreAscending c.last_global_position rs
      → (consume (projection_cursor X P) c rs).state ≡ fold c.state (stored rs)
  unfolding consume apply_recorded_event
  consume-fold c [] short h = refl
  consume-fold c (r ∷ rs) short h =
      let fresh : ltb r.global_position c.last_global_position ≡ false = ground (arith, h.0) in
      let next = next_u64-eq r.global_position short.0 in
      let c' = apply_recorded_event X P c r in
      let moved : c'.last_global_position ≡ r.global_position + 1 =
        rw (fresh, apply_recorded_event) next in
      let ih = consume-fold c' rs short.1 (rw moved h.1) in
      elim (Option-cases (decode_stored_event X r)) [
        | inl e ↦
            let kept : c'.state ≡ c.state = rw (fresh, e, apply_recorded_event) refl in
            rw (e, stored) (ih ∙ ap (λ (s : P.State). fold s (stored rs)) kept)
        | inr (event, e) ↦
            let kept : c'.state ≡ P.apply c.state event =
              rw (fresh, e, apply_recorded_event) refl in
            rw (e, stored) (ih ∙ ap (λ (s : P.State). fold s (stored rs)) kept)
      ]
