-- ===== src/Example/Totals.antt =====
-- examples/counter.rs: what the projection over all counters counts.
use eventfold_es.Prelude.{
  ℕ, ◌+◌, ◌≤◌, ◌<◌, ◌≡◌, ap, ◌∙◌, inl, inr, Bool, ◌&&◌, List, [], ◌∷◌, ◌++◌, length, arith, String,
  str_eq, eq_iff, u64_mod, next_u64, next_u64-eq, Bool-cases, if◌then◌else◌,
}
use eventfold_es.Runtime.{Runtime}
use eventfold_es.Event.{RecordedEvent, StoredEvent}
use eventfold_es.Client.{Grpc}
use eventfold_es.Cursor.{IsShort, consume}
use eventfold_es.GlobalLog.{IsGlobalLog, IsShort-append_left}
use eventfold_es.Io.{Disk}
use eventfold_es.Projection.Stream.{projection_cursor}
use eventfold_es.Projection.{ProjectionCheckpoint, ProjectionRunner, default_checkpoint, catch_up}
use eventfold_es.Projection.Exact.{IsAt, catch_up-IsBehind}
use eventfold_es.Projection.Fold.{
  stored, AreAscending, AreAscending-append_left, length-AreAscending, length-stored, fold,
  consume-fold,
}
use eventfold_es.Example.{TotalCounter, no_totals, count_event, count, Serde, total_counter}

-- No total is above a bound.
abbrev AreAtMost : ℕ → TotalCounter → Type 0
AreAtMost n t = (t.total_increments ≤ n) × (t.total_decrements ≤ n) × (t.total_resets ≤ n)

abbrev totals : ℕ → ℕ → ℕ → TotalCounter
totals i d r = record { total_increments = i; total_decrements = d; total_resets = r }

same_totals : (i d r i' d' r' : ℕ) → i ≡ i' → d ≡ d' → r ≡ r' → totals i d r ≡ totals i' d' r'
same_totals i d r i' d' r' p q s = cc

module _ {X : Runtime} where
  abbrev pub is_counted : String → StoredEvent X → Bool
  is_counted name e = str_eq e.aggregate_type "counter" && str_eq e.event_type name

  -- The number of a counter's events of a type, in a list of events of all aggregates.
  abbrev pub number_of : String → List (StoredEvent X) → ℕ
  number_of name [] = 0
  number_of name (e ∷ es) =
      let rest = number_of name es in if is_counted name e then rest + 1 else rest

  -- Totals that are ahead of others by these numbers.
  abbrev plus : TotalCounter → List (StoredEvent X) → TotalCounter
  plus t es = record {
    total_increments = t.total_increments + number_of "Incremented" es;
    total_decrements = t.total_decrements + number_of "Decremented" es;
    total_resets = t.total_resets + number_of "WasReset" es;
  }

  count-one :
      (t : TotalCounter) (e : StoredEvent X) (n : ℕ)
      → AreAtMost n t
      → n + 1 < u64_mod
      → count X t e ≡ plus t (e ∷ [])
  unfolding count count_event
  count-one t e n h room =
      let next : (m : ℕ) → m ≤ n → next_u64 m ≡ m + 1 = λ m le. next_u64-eq m (omega arith) in
      elim (Bool-cases (str_eq e.aggregate_type "counter")) [
        | inr o ↦ rw (o, count) (same_totals _ _ _ _ _ _ (omega arith) (omega arith) (omega arith))
        | inl c ↦ elim (Bool-cases (str_eq e.event_type "Incremented")) [
          | inl i ↦
              let same : e.event_type ≡ "Incremented" = (eq_iff e.event_type "Incremented").0 i in
              rw (c, same, count) (same_totals _ _ _ _ _ _ (next _ h.0) (omega arith) (omega arith))
          | inr i ↦ elim (Bool-cases (str_eq e.event_type "Decremented")) [
            | inl d ↦
                let same : e.event_type ≡ "Decremented" = (eq_iff e.event_type "Decremented").0 d in
                rw (c, same, count)
                  (same_totals _ _ _ _ _ _ (omega arith) (next _ h.1) (omega arith))
            | inr d ↦ elim (Bool-cases (str_eq e.event_type "WasReset")) [
              | inl r ↦
                  let same : e.event_type ≡ "WasReset" = (eq_iff e.event_type "WasReset").0 r in
                  rw (c, same, count)
                    (same_totals _ _ _ _ _ _ (omega arith) (omega arith) (next _ h.2))
              | inr r ↦
                  rw (c, i, d, r, count)
                    (same_totals _ _ _ _ _ _ (omega arith) (omega arith) (omega arith))
            ]
          ]
        ]
      ]

  number_of-cons :
      (name : String) (e : StoredEvent X) (es : List (StoredEvent X))
      → number_of name (e ∷ es) ≡ number_of name (e ∷ []) + number_of name es
  number_of-cons name e es = elim (Bool-cases (is_counted name e)) [
    | inl c ↦ rw (c, number_of) (omega arith)
    | inr c ↦ rw (c, number_of) (omega arith)
  ]

  number_of-one : (name : String) (e : StoredEvent X) → number_of name (e ∷ []) ≤ 1
  number_of-one name e = elim (Bool-cases (is_counted name e)) [
    | inl c ↦ rw (c, number_of) (omega arith)
    | inr c ↦ rw (c, number_of) (omega arith)
  ]

  plus-cons :
      (t : TotalCounter) (e : StoredEvent X) (es : List (StoredEvent X))
      → plus (plus t (e ∷ [])) es ≡ plus t (e ∷ es)
  plus-cons t e es =
      let one = number_of-cons "Incremented" e es in
      let two = number_of-cons "Decremented" e es in
      let three = number_of-cons "WasReset" e es in
      same_totals _ _ _ _ _ _ (omega (arith, one)) (omega (arith, two)) (omega (arith, three))

module _ (X : Runtime) (E : Serde X) where
  fold-plus :
      (n : ℕ) (t : TotalCounter) (es : List (StoredEvent X))
      → AreAtMost n t
      → n + length es < u64_mod
      → fold X (total_counter X E) t es ≡ plus t es
  fold-plus n t [] h room = same_totals _ _ _ _ _ _ (omega arith) (omega arith) (omega arith)
  fold-plus n t (e ∷ es) h room =
      let one = number_of-one "Incremented" e in
      let two = number_of-one "Decremented" e in
      let three = number_of-one "WasReset" e in
      let next : AreAtMost (n + 1) (plus t (e ∷ [])) =
        (omega (arith, one, h.0), omega (arith, two, h.1), omega (arith, three, h.2)) in
      ap (λ (s : TotalCounter). fold X (total_counter X E) s es) (count-one t e n h (omega arith))
      ∙ fold-plus (n + 1) (plus t (e ∷ [])) es next (omega arith)
      ∙ plus-cons t e es

  -- What the totals are of a log.
  abbrev pub totals_of : List (StoredEvent X) → TotalCounter
  totals_of es =
      totals (number_of "Incremented" es) (number_of "Decremented" es) (number_of "WasReset" es)

  consume-totals :
      (rs : List (RecordedEvent X))
      → IsShort X rs
      → AreAscending 0 rs
      → (consume
          (projection_cursor X (total_counter X E))
          (default_checkpoint X (total_counter X E))
          rs).state
        ≡ totals_of (stored rs)
  unfolding default_checkpoint
  consume-totals rs short h =
      let start = default_checkpoint X (total_counter X E) in
      let small = length-AreAscending 0 rs (omega arith) h short in
      let fewer = length-stored rs in
      consume-fold X (total_counter X E) start rs short h
      ∙ fold-plus 0 no_totals (stored rs) (omega arith, omega arith, omega arith)
          (omega (arith, small, fewer))
      ∙ same_totals _ _ _ _ _ _ (omega arith) (omega arith) (omega arith)

  -- Whatever a catch-up of the projection over all counters meets, its totals are afterwards the exact
  -- numbers of the counters' events of each type in a prefix of the server's log, over all instances
  -- and among the events of other aggregates, if they were so before (a new projection's are those
  -- of the empty prefix), and global positions grow along the log.
  pub catch_up-totals :
      (G : Grpc X) (L : IsGlobalLog X G) (runner : ProjectionRunner X (total_counter X E)) (w : G.W)
      (d : Disk X.Bytes)
      → IsAt X (total_counter X E) G L w runner
      → AreAscending 0 (L.log (catch_up X (total_counter X E) G runner w d).0.1)
      → (seen rest : List (RecordedEvent X)) × (L.log
            (catch_up X (total_counter X E) G runner w d).0.1
          ≡ seen ++ rest)
        × ((catch_up X (total_counter X E) G runner w d).0.0.1.checkpoint.state
            ≡ totals_of (stored seen))
  catch_up-totals G L runner w d h ascending =
      let after = catch_up-IsBehind X (total_counter X E) G L runner w d h in
      let w' = (catch_up X (total_counter X E) G runner w d).0.1 in
      let short = IsShort-append_left after.seen after.rest (rw after.whole at (L.short w')) in
      let grows = AreAscending-append_left 0 after.seen after.rest (rw after.whole at ascending) in
      (
        after.seen,
        after.rest,
        after.whole,
        ap (λ (c : ProjectionCheckpoint X (total_counter X E)). c.state) after.here
            ∙ consume-totals after.seen short grows,
      )
