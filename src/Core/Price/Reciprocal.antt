-- ===== src/Core/Price/Reciprocal.antt =====
-- The two views of a price (crates/arbkit-core/src/price.rs) are inverse on every price, stay in
-- their ranges, and turn the order round.
use arbkit.Prelude.{ℕ, ◌+◌, ◌-◌, ◌*◌, ◌/◌, ◌≤◌, ◌<◌, ◌≡◌, ap, arith}
use arbkit.Prelude.Division.{div_bounds, le_div, div_lt, quotient_unique}
use arbkit.Core.Price.{
  Prob, Odds, IsProb, IsOdds, as_u32, reciprocal, ppm_one, div_round, to_odds, to_prob, as_u32,
  from_ppm, from_fractional, from_cents,
}
use native.Mathlib.Nat.{mul-le-mul_right}
use arbkit.Core.Error.{ok}

odds_bounds :
    (p : ℕ)
    → 1 ≤ p
    → p ≤ ppm_one
    → let o = div_round reciprocal p in (ppm_one ≤ o) × (o ≤ reciprocal)
odds_bounds p lo hi = omega (
  arith,
  le_div (reciprocal + p / 2) p ppm_one (omega arith) (omega arith),
  div_lt (reciprocal + p / 2) p (reciprocal + 1) (omega arith) (omega arith),
)

reciprocal_twice : (p : ℕ) → 1 ≤ p → p ≤ ppm_one → div_round reciprocal (div_round reciprocal p) ≡ p
reciprocal_twice p lo hi =
    let o = div_round reciprocal p in
    quotient_unique (reciprocal + o / 2) o p (omega (arith, odds_bounds p lo hi))
      (omega (arith, odds_bounds p lo hi, div_bounds (reciprocal + p / 2) p (omega arith)))
      (omega (arith, odds_bounds p lo hi, div_bounds (reciprocal + p / 2) p (omega arith)))

-- A valid price, turned into odds and back, is the same price.
pub to_prob-to_odds : (p : Prob) → IsProb p → to_prob (to_odds p) ≡ p
unfolding to_prob to_odds
to_prob-to_odds p h =
    ap (λ k. record { ppm = k }) (simp (reciprocal_twice p.ppm h.0 h.1) (omega arith))

-- The odds of a valid price are valid.
pub to_odds-IsOdds : (p : Prob) → IsProb p → IsOdds (to_odds p)
unfolding to_odds
to_odds-IsOdds p h = odds_bounds p.ppm h.0 h.1

odds_antitone :
    (p d : ℕ) → 1 ≤ p → p + d ≤ ppm_one → div_round reciprocal (p + d) ≤ div_round reciprocal p
odds_antitone p d lo hi =
    let a = div_round reciprocal (p + d) in
    le_div (reciprocal + p / 2) p a (omega arith) (
      omega (
        arith,
        odds_bounds (p + d) (omega arith) hi,
        div_bounds (reciprocal + (p + d) / 2) (p + d) (omega arith),
        mul-le-mul_right d (odds_bounds (p + d) (omega arith) hi).0,
      ))

-- A shorter price (a larger probability) has odds that are no longer.
pub to_odds_antitone :
    (p q : Prob) → IsProb p → IsProb q → p.ppm ≤ q.ppm → (to_odds q).micro ≤ (to_odds p).micro
unfolding to_odds
to_odds_antitone p q hp hq h =
    let e : p.ppm + (q.ppm - p.ppm) ≡ q.ppm = omega arith in
    rw (← e) (odds_antitone p.ppm (q.ppm - p.ppm) hp.0 (omega arith))

-- Any odds in range give a price in range, so the narrowing cast loses nothing.
pub to_prob-IsProb : (o : Odds) → IsOdds o → IsProb (to_prob o)
unfolding to_prob
to_prob-IsProb o h =
    let m = o.micro in
    omega (
      arith,
      le_div (reciprocal + m / 2) m 1 (omega arith) (omega arith),
      div_lt (reciprocal + m / 2) m (ppm_one + 1) (omega arith) (omega arith),
    )

pub from_ppm-ok : (k : ℕ) → 1 ≤ k → k ≤ ppm_one → from_ppm (as_u32 k) ≡ ok (record { ppm = k })
unfolding from_ppm
from_ppm-ok k lo hi = let e : as_u32 k ≡ k = omega arith in rw e (ground arith)

-- Every whole-cent quote from 1 to 99 is ten thousand ppm a cent; all others are refused.
pub from_cents_lem :
    (c : ℕ)
    → ((1 ≤ c) × (c ≤ 99) → from_cents c ≡ ok (record { ppm = c * 10_000 }))
      × ((p : Prob) → from_cents c ≡ ok p → (1 ≤ c) × (c ≤ 99) × (p.ppm ≡ c * 10_000))
unfolding from_cents from_ppm
from_cents_lem c = (λ h. ground arith, λ p h. ground arith)

-- A fractional quote is refused only for a zero or for odds that round to no probability at all.
pub from_fractional-IsProb :
    (n d : ℕ)
    → 1 ≤ n
    → 1 ≤ d
    → n < d * 1_999_999
    → (p : Prob) × (from_fractional n d ≡ ok p) × IsProb p
unfolding from_fractional
from_fractional-IsProb n d hn hd h =
    let q = div_round (d * ppm_one) (n + d) in
    let lo : 1 ≤ q = le_div (d * ppm_one + (n + d) / 2) (n + d) 1 (omega arith) (omega arith) in
    let hi : q < ppm_one + 1 =
      div_lt (d * ppm_one + (n + d) / 2) (n + d) (ppm_one + 1) (omega arith) (omega arith) in
    (record { ppm = q }, ground (arith, from_ppm-ok q), (lo, omega arith))
