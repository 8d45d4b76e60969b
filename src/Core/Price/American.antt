-- ===== src/Core/Price/American.antt =====
-- American odds (crates/arbkit-core/src/price.rs): reading a quote and rendering the price gives
-- the quote back, as far as a part per million resolves it.
use native.Mathlib.Nat.{add-mul, mul-le-mul_right}
use native.Mathlib.Decide.{dec_lt, ℕ_discrete}
use arbkit.Prelude.{ℕ, suc, ◌+◌, ◌-◌, ◌*◌, ◌/◌, ◌≤◌, ◌<◌, ◌≡◌, ◌≢◌, arith, some, sym, ap, ◌∙◌}
use arbkit.Prelude.Int.{ℤ, pos, negsuc, pos_part, neg_part}
use arbkit.Prelude.Division.{div_bounds, le_div, div_lt, quotient_unique}
use arbkit.Core.Price.Reciprocal.{from_ppm-ok}
use arbkit.Core.Price.{Prob, IsProb, ppm_one, div_round, from_american, to_american}
use arbkit.Core.Error.{ok}

-- The two roundings undo one another while the payout over the stake stays below the resolution.
straddles :
    (s c : ℕ)
    → s ≤ 9_999
    → c * s ≤ 100_000_000 + (s + 1) / 2
    → 100_000_000 ≤ c * s + s / 2
    → (s * c ≤ 100_000_000 + c / 2) × (100_000_000 + c / 2 < s * c + c)
straddles s c hs hi lo = elim (dec_lt s c) [
  | yes h ↦ omega arith
  | no h ↦ absurd (omega (arith, mul-le-mul_right {m = c} {n = 9_999} s (omega arith)))
]

positive_ppm :
    (m : ℕ)
    → 100 ≤ m
    → m ≤ 9_899
    → let p = div_round (100 * ppm_one) (m + 100) in
      (1 ≤ p) × (p ≤ 500_000) × (div_round (100 * (ppm_one - p)) p ≡ m)
positive_ppm m lo hi =
    let n = 100 * ppm_one + (m + 100) / 2 in
    let p = div_round (100 * ppm_one) (m + 100) in
    let small : p < 500_001 = div_lt n (m + 100) 500_001 (omega arith) (omega arith) in
    let large : 1 ≤ p = le_div n (m + 100) 1 (omega arith) (omega arith) in
    let b = div_bounds n (m + 100) (omega arith) in
    let t = straddles (m + 100) p (omega arith) (omega arith) (omega arith) in
    (
      large,
      omega arith,
      quotient_unique (100 * (ppm_one - p) + p / 2) p m large (omega arith) (omega arith),
    )

negative_ppm :
    (m : ℕ)
    → 101 ≤ m
    → m ≤ 9_899
    → let p = div_round (m * ppm_one) (m + 100) in
      (500_001 ≤ p) × (p < ppm_one) × (div_round (100 * p) (ppm_one - p) ≡ m)
negative_ppm m lo hi =
    let n = m * ppm_one + (m + 100) / 2 in
    let p = div_round (m * ppm_one) (m + 100) in
    let small : p < ppm_one = div_lt n (m + 100) ppm_one (omega arith) (omega arith) in
    let large : 500_001 ≤ p = le_div n (m + 100) 500_001 (omega arith) (omega arith) in
    let b = div_bounds n (m + 100) (omega arith) in
    let c = ppm_one - p in
    let split : p * (m + 100) + c * (m + 100) ≡ ppm_one * (m + 100) =
      sym (add-mul p c (m + 100)) ∙ ap (λ (k : ℕ). k * (m + 100)) (omega arith) in
    let t = straddles (m + 100) c (omega arith) (omega arith) (omega arith) in
    (
      large,
      small,
      quotient_unique (100 * p + (ppm_one - p) / 2) (ppm_one - p) m (omega arith) (omega arith)
          (omega arith),
    )

-- Reading an American quote and rendering it again gives the same quote, for every quote from 100
-- to 9899 on either side but -100, which is even money and renders as +100.
pub to_american-from_american :
    (a : ℤ)
    → 100 ≤ pos_part a + neg_part a
    → pos_part a + neg_part a ≤ 9_899
    → a ≢ negsuc 99
    → (p : Prob) × (from_american a ≡ ok p) × IsProb p × (to_american p ≡ some a)
unfolding from_american to_american
to_american-from_american (pos m) lo hi ne =
    let q = div_round (100 * ppm_one) (m + 100) in
    let (lo', hi', back) = positive_ppm m (omega arith) (omega arith) in
    let valid : q ≤ ppm_one = omega arith in
    (record { ppm = q }, ground (arith, from_ppm-ok q), (lo', valid), ground arith)
to_american-from_american (negsuc m) lo hi ne =
    let q = div_round (suc m * ppm_one) (suc m + 100) in
    let big : 101 ≤ suc m = elim (ℕ_discrete m 99) [
      | yes e ↦ absurd (ne (ap negsuc e))
      | no n ↦ omega arith
    ] in
    let (lo', hi', back) = negative_ppm (suc m) big (omega arith) in
    (record { ppm = q }, ground (arith, from_ppm-ok q), (omega arith, omega arith), ground arith)
