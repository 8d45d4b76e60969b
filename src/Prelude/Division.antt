-- ===== src/Prelude/Division.antt =====
-- Rounding division on the native numbers: bounds of a quotient, the ceiling, and multiples.
use Prim.Native.Nat.{ℕ, ◌+◌, ◌-◌, ◌*◌, ◌/◌, ◌≤◌, ◌<◌}
use mathlib.Core.Path.{◌≡◌}
use native.Mathlib.Omega.{arith}
use native.Mathlib.Nat.{
  div-mul-le_self, lt-div-mul-add, le-div_iff_mul-le, div-lt_iff_lt-mul, mul-div_cancel, zero-div,
  zero-mul, add-div_right,
}

-- `u64::div_ceil`, and the ceiling that the sizing uses.
abbrev pub ceil_div : ℕ → ℕ → ℕ
ceil_div a b = (a + b - 1) / b

pub div_bounds : (a b : ℕ) → 0 < b → (a / b * b ≤ a) × (a < a / b * b + b)
div_bounds a b h = (div-mul-le_self a b, lt-div-mul-add h)

pub ceil_div_bounds : (a b : ℕ) → 0 < b → (a ≤ ceil_div a b * b) × (ceil_div a b * b < a + b)
ceil_div_bounds a b h = omega (arith, div_bounds (a + b - 1) b h)

pub le_div : (a b c : ℕ) → 0 < b → c * b ≤ a → c ≤ a / b
le_div a b c h k = (le-div_iff_mul-le h).1 k

pub div_lt : (a b c : ℕ) → 0 < b → a < c * b → a / b < c
div_lt a b c h k = (div-lt_iff_lt-mul h).1 k

-- The quotient is the only number whose product straddles the dividend.
pub quotient_unique : (a b q : ℕ) → 0 < b → q * b ≤ a → a < q * b + b → a / b ≡ q
quotient_unique a b q h lo hi = omega (arith, le_div a b q h lo, div_lt a b (q + 1) h (omega arith))

pub div_le : (a b c : ℕ) → 0 < b → a ≤ c * b → a / b ≤ c
div_le a b c h k = omega (arith, div_lt a b (c + 1) h (omega arith))

pub div_mono : (a b c : ℕ) → 0 < c → a ≤ b → a / c ≤ b / c
div_mono a b c h k = le_div b c (a / c) h (omega (arith, div_bounds a c h))

-- `n` is a whole number of steps.
abbrev pub IsMultiple : ℕ → ℕ → Type 0
IsMultiple step n = n / step * step ≡ n

pub mul-IsMultiple : (k step : ℕ) → 0 < step → IsMultiple step (k * step)
mul-IsMultiple k step h = rw (mul-div_cancel k h)

pub zero-IsMultiple : (step : ℕ) → IsMultiple step 0
zero-IsMultiple step = simp (zero-div, zero-mul)

pub add-IsMultiple : (step n : ℕ) → 0 < step → IsMultiple step n → IsMultiple step (n + step)
add-IsMultiple step n h e = rw (add-div_right n h) (omega (arith, e))
