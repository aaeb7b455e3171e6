-- ===== src/Prelude/Int.antt =====
-- Signed whole numbers over the native numbers: Go's int64 durations, which a clock that steps
-- back makes negative.
use mini_dock.Prelude.{ℕ, zero, suc, ◌-◌, ◌/◌, leb, if◌then◌else◌}

-- `negsuc n` is -(n + 1).
pub data ℤ : Type 0 where
  pos : ℕ → ℤ
  negsuc : ℕ → ℤ

-- -n
abbrev pub neg : ℕ → ℤ
neg zero = pos 0
neg (suc n) = negsuc n

-- a - b, divided by k and cut off towards zero, as Go divides.
abbrev pub sub_div : ℕ → ℕ → ℕ → ℤ
sub_div a b k = if leb b a then pos ((a - b) / k) else neg ((b - a) / k)
