-- ===== src/Example/Balance.antt =====
-- examples/counter.rs: the value of a counter whose events were all decided by its handler.
use eventfold_es.Prelude.{
  ℕ, zero, suc, ◌+◌, ◌≤◌, ◌<◌, ◌≡◌, refl, ap, ◌∙◌, ◌⊎◌, inl, inr, false, List, [], ◌∷◌, ◌++◌, ok,
  length, length-append, arith, Bool-cases, ◌==◌,
}
use eventfold_es.Example.{
  Counter, default, CounterCommand, increment, decrement, reset, CounterEvent, incremented,
  decremented, was_reset, handle, apply,
}
use eventfold_es.Example.Int64.{pos, i64_max, add_one, sub_one, is_zero, is_at_most_zero}

abbrev pub replay : Counter → List CounterEvent → Counter
replay c [] = c
replay c (e ∷ es) = replay (apply c e) es

-- A history in which the handler decided each batch of events on the state before it.
pub data Decided : List CounterEvent → Counter → Type 0 where
  fresh : Decided [] default
  commanded :
      {es : List CounterEvent} {c : Counter} (cmd : CounterCommand) (new : List CounterEvent)
      → Decided es c
      → handle c cmd ≡ ok new
      → Decided (es ++ new) (replay c new)

-- The increments and the decrements since the last reset.
abbrev pub tally : ℕ × ℕ → List CounterEvent → ℕ × ℕ
tally t [] = t
tally (i, d) (incremented ∷ es) = tally (suc i, d) es
tally (i, d) (decremented ∷ es) = tally (i, suc d) es
tally (i, d) (was_reset _ ∷ es) = tally (0, 0) es

tally-append : (t : ℕ × ℕ) (es fs : List CounterEvent) → tally t (es ++ fs) ≡ tally (tally t es) fs
tally-append t [] fs = refl
tally-append (i, d) (incremented ∷ es) fs = tally-append (suc i, d) es fs
tally-append (i, d) (decremented ∷ es) fs = tally-append (i, suc d) es fs
tally-append (i, d) (was_reset _ ∷ es) fs = tally-append (0, 0) es fs

-- The value is what is left of the increments.
pub record IsBalanced (t : ℕ × ℕ) (bound : ℕ) (c : Counter) : Type 0 where
  pub left : ℕ
  pub value : c.value ≡ pos left
  pub balance : t.1 + left ≡ t.0
  pub small : left ≤ bound

zero_or_suc : (n : ℕ) → (n ≡ 0) ⊎ ((k : ℕ) × (n ≡ suc k))
zero_or_suc zero = inl refl
zero_or_suc (suc k) = inr (k, refl)

add_one-pos : (n : ℕ) → n < i64_max → add_one (pos n) ≡ pos (suc n)
unfolding add_one
add_one-pos n h = let e : (n == i64_max) ≡ false = ground arith in rw e refl

step-IsBalanced :
    (t : ℕ × ℕ) (n : ℕ) (c : Counter) (cmd : CounterCommand) (new : List CounterEvent)
    → IsBalanced t n c
    → n < i64_max
    → handle c cmd ≡ ok new
    → IsBalanced (tally t new) (n + length new) (replay c new)
unfolding handle apply sub_one is_zero is_at_most_zero
step-IsBalanced (i, d) n c increment new h room e =
    let same : incremented ∷ [] ≡ new = cc in
    rw (← same) (record {
      left = suc h.left;
      value = ap add_one h.value ∙ add_one-pos h.left (omega (arith, h.small));
      balance = omega (arith, h.balance);
      small = omega (arith, h.small);
    })
step-IsBalanced (i, d) n c decrement new h room e = elim (zero_or_suc h.left) [
  | inl z ↦ cc (rw (h.value, z) at e)
  | inr (k, s) ↦
      let positive : is_at_most_zero c.value ≡ false = rw (h.value, s) (ground arith) in
      let same : decremented ∷ [] ≡ new = cc (rw (positive, handle) at e) in
      rw (← same) (record {
        left = k;
        value = ap sub_one h.value ∙ ap (λ m. sub_one (pos m)) s;
        balance = omega (arith, h.balance, s);
        small = omega (arith, h.small, s);
      })
]
step-IsBalanced (i, d) n c reset new h room e = elim (Bool-cases (is_zero c.value)) [
  | inl z ↦ cc (rw (z, handle) at e)
  | inr z ↦
      let same : was_reset c.value ∷ [] ≡ new = cc (rw (z, handle) at e) in
      rw (← same) (record { left = 0; value = refl; balance = refl; small = omega arith })
]

-- A counter whose events were all decided by its handler is never negative: its value is the number
-- of increments since the last reset less that of decrements, of which there are not more, if there
-- are fewer events than an `i64` counts.
pub Decided-IsBalanced :
    {es : List CounterEvent} {c : Counter}
    → Decided es c
    → length es < i64_max
    → IsBalanced (tally (0, 0) es) (length es) c
Decided-IsBalanced fresh room = record {
  left = 0;
  value = refl;
  balance = refl;
  small = omega arith;
}
Decided-IsBalanced (commanded {es} {c} cmd new h e) room =
    let sum = length-append es new in
    rw (tally-append (0, 0) es new, sum)
      (step-IsBalanced (tally (0, 0) es) (length es) c cmd new
        (Decided-IsBalanced h (omega (arith, sum))) (omega (arith, sum)) e)
