-- ===== src/Core/Price.antt =====
-- crates/arbkit-core/src/price.rs: implied probabilities in parts per million and decimal odds
-- in micro-units. A u32, u64 or i32 is its number; casts that narrow keep their `% 2 ^ 32`.
-- The float constructors are not modelled.
pub mod Reciprocal
pub mod American
use arbkit.Prelude.{
  ℕ, ◌+◌, ◌-◌, ◌*◌, ◌/◌, ◌%◌, ◌^◌, ◌≤◌, ◌||◌, Option, none, some, ltb, leb, ◌==◌, if◌then◌else◌,
}
use arbkit.Prelude.Int.{ℤ, pos, pos_part, neg_part, ltb_ℤ, sub_ℕ}
use arbkit.Core.Error.{
  Result, ok, err, prob_out_of_range, odds_out_of_range, american_out_of_range, invalid_fractional,
}

abbrev pub ppm_one : ℕ
ppm_one = 1_000_000

abbrev pub odds_one : ℕ
odds_one = 1_000_000

-- The product of a price and its odds.
abbrev pub reciprocal : ℕ
reciprocal = ppm_one * odds_one

-- Division that rounds to nearest.
abbrev pub div_round : ℕ → ℕ → ℕ
div_round numerator denominator = (numerator + denominator / 2) / denominator

-- `as u32`
abbrev pub as_u32 : ℕ → ℕ
as_u32 n = n % 2 ^ 32

pub record Prob : Type 0 where
  pub ppm : ℕ

pub record Odds : Type 0 where
  pub micro : ℕ

abbrev pub certain : Prob
certain = record { ppm = ppm_one }

abbrev pub longest : Odds
longest = record { micro = reciprocal }

-- The values that the constructors let through.
abbrev pub IsProb : Prob → Type 0
IsProb p = (1 ≤ p.ppm) × (p.ppm ≤ ppm_one)

abbrev pub IsOdds : Odds → Type 0
IsOdds o = (odds_one ≤ o.micro) × (o.micro ≤ reciprocal)

unfoldable pub from_ppm : ℕ → Result Prob
from_ppm ppm =
    if ppm == 0 || ltb ppm_one ppm then err (prob_out_of_range ppm) else ok (record { ppm = ppm })

-- The magnitude is `unsigned_abs`.
unfoldable pub from_american : ℤ → Result Prob
unfolding from_ppm
from_american american =
    let magnitude = pos_part american + neg_part american in
    if ltb magnitude 100
    then err (american_out_of_range american)
    else from_ppm (
        as_u32 (
          if ltb_ℤ american (pos 0)
          then div_round (magnitude * ppm_one) (magnitude + 100)
          else div_round (100 * ppm_one) (magnitude + 100)))

unfoldable pub to_american : Prob → Option ℤ
to_american p =
    let complement = ppm_one - p.ppm in
    if complement == 0
    then none
    else if ltb (ppm_one / 2) p.ppm
    then some (sub_ℕ 0 (div_round (100 * p.ppm) complement))
    else some (pos (div_round (100 * complement) p.ppm))

unfoldable pub from_fractional : ℕ → ℕ → Result Prob
unfolding from_ppm
from_fractional numerator denominator =
    if numerator == 0 || denominator == 0
    then err (invalid_fractional numerator denominator)
    else from_ppm (as_u32 (div_round (denominator * ppm_one) (numerator + denominator)))

-- The product of the error path is a u32 product, which wraps.
unfoldable pub from_cents : ℕ → Result Prob
unfolding from_ppm
from_cents cents =
    if cents == 0 || leb 100 cents
    then err (prob_out_of_range (as_u32 (cents * 10_000)))
    else from_ppm (cents * 10_000)

unfoldable pub to_odds : Prob → Odds
to_odds p = record { micro = div_round reciprocal p.ppm }

unfoldable pub from_micro : ℕ → Result Odds
from_micro micro =
    if ltb micro odds_one || ltb reciprocal micro
    then err (odds_out_of_range micro)
    else ok (record { micro = micro })

unfoldable pub to_prob : Odds → Prob
to_prob o = record { ppm = as_u32 (div_round reciprocal o.micro) }
