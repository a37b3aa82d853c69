-- ===== src/Example/Int64.antt =====
-- examples/counter.rs: `i64`, as far as the counter uses it. `+=` and `-=` wrap in a release build.
use eventfold_es.Prelude.{ℕ, zero, suc, Bool, true, false, ◌==◌, if◌then◌else◌}

pub data ℤ : Type 0 where
  pos negsuc : ℕ → ℤ

-- i64::MAX, and the number under `negsuc` for i64::MIN.
abbrev pub i64_max : ℕ
i64_max = 9223372036854775807

unfoldable pub add_one : ℤ → ℤ
add_one (pos n) = if n == i64_max then negsuc i64_max else pos (suc n)
add_one (negsuc zero) = pos 0
add_one (negsuc (suc n)) = negsuc n

unfoldable pub sub_one : ℤ → ℤ
sub_one (pos zero) = negsuc 0
sub_one (pos (suc n)) = pos n
sub_one (negsuc n) = if n == i64_max then pos i64_max else negsuc (suc n)

-- `value == 0` and `value <= 0`
unfoldable pub is_zero : ℤ → Bool
is_zero (pos n) = n == 0
is_zero (negsuc n) = false

unfoldable pub is_at_most_zero : ℤ → Bool
is_at_most_zero (pos n) = n == 0
is_at_most_zero (negsuc n) = true
