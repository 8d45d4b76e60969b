-- ===== src/Core/Fee/Laws.antt =====
-- What a fee does to a price (crates/arbkit-core/src/fee.rs): the range of the effective price and
-- the direction in which each kind of fee moves it.
use native.Mathlib.Nat.{mul-le-mul_left}
use arbkit.Prelude.{ℕ, ◌+◌, ◌-◌, ◌*◌, ◌/◌, ◌≤◌, ◌<◌, ◌≡◌, min, max, arith}
use arbkit.Prelude.Division.{ceil_div, div_bounds, le_div, div_lt}
use arbkit.Core.Error.{unwrap_or}
use arbkit.Core.Price.{
  Prob, IsProb, IsOdds, certain, ppm_one, odds_one, reciprocal, div_round, as_u32, from_ppm,
  to_odds,
}
use arbkit.Core.Price.Reciprocal.{from_ppm-ok, to_odds-IsOdds}
use arbkit.Core.Fee.{
  Fee, free, commission_bps, stake_fee_bps, maker_rebate_bps, bps_one, after_commission,
  after_stake_fee, after_rebate, effective,
}

-- A venue that takes a cut, or none.
abbrev pub TakesCut : Fee → Type 0
TakesCut (maker_rebate_bps bps) = bps ≡ 0
TakesCut other = Unit

-- The number inside `from_ppm` decides the result when it is in range.
unwrapped :
    (k : ℕ) (d : Prob)
    → 1 ≤ k
    → k ≤ ppm_one
    → unwrap_or (from_ppm (as_u32 k)) d ≡ record { ppm = k }
unwrapped k d lo hi = ground (arith, from_ppm-ok k lo hi)

-- What a commission leaves of the odds never exceeds them.
net_le : (d bps : ℕ) → odds_one ≤ d → odds_one + (d - odds_one) * (bps_one - bps) / bps_one ≤ d
net_le d bps h =
    let x = d - odds_one in
    omega (
      arith,
      div_lt (x * (bps_one - bps)) bps_one (x + 1) (omega arith)
          (omega (arith, mul-le-mul_left {m = bps_one - bps} {n = bps_one} x (omega arith))),
    )

commission_range :
    (p : Prob) (rate : ℕ)
    → IsProb p
    → (p.ppm ≤ (after_commission rate p).ppm) × ((after_commission rate p).ppm ≤ ppm_one)
unfolding after_commission to_odds
commission_range p rate h =
    let q = p.ppm in
    let d = div_round reciprocal q in
    let bps = min rate bps_one in
    let net = odds_one + (d - odds_one) * (bps_one - bps) / bps_one in
    let o : IsOdds (to_odds p) = to_odds-IsOdds p h in
    let le : net ≤ d = net_le d bps o.0 in
    let room : q ≤ ceil_div reciprocal net =
      le_div (reciprocal + net - 1) net q (omega arith)
        (omega (arith, mul-le-mul_left q le, div_bounds (reciprocal + q / 2) q (omega arith))) in
    let e = unwrapped (min (ceil_div reciprocal net) ppm_one) certain (omega arith) (omega arith) in
    rw e (omega arith)

stake_fee_range :
    (p : Prob) (bps : ℕ)
    → IsProb p
    → (p.ppm ≤ (after_stake_fee bps p).ppm) × ((after_stake_fee bps p).ppm ≤ ppm_one)
unfolding after_stake_fee
stake_fee_range p bps h =
    let inflated = p.ppm * (bps_one + bps) / bps_one in
    let grown : p.ppm ≤ inflated =
      le_div (p.ppm * (bps_one + bps)) bps_one p.ppm (omega arith)
        (mul-le-mul_left {m = bps_one} {n = bps_one + bps} p.ppm (omega arith)) in
    let e = unwrapped (min inflated ppm_one) certain (omega arith) (omega arith) in
    rw e (omega arith)

rebate_range :
    (p : Prob) (rate : ℕ)
    → IsProb p
    → (1 ≤ (after_rebate rate p).ppm) × ((after_rebate rate p).ppm ≤ p.ppm)
unfolding after_rebate
rebate_range p rate h =
    let bps = min rate bps_one in
    let shrunk = p.ppm * (bps_one - bps) / bps_one in
    let less : shrunk < p.ppm + 1 =
      div_lt (p.ppm * (bps_one - bps)) bps_one (p.ppm + 1) (omega arith)
        (omega (arith, mul-le-mul_left {m = bps_one - bps} {n = bps_one} p.ppm (omega arith))) in
    let e = unwrapped (max shrunk 1) (record { ppm = 1 }) (omega arith) (omega arith) in
    rw e (omega arith)

-- The effective price of a valid quote is a valid price, under every fee at every rate.
pub effective-IsProb : (f : Fee) (p : Prob) → IsProb p → IsProb (effective f p)
unfolding effective
effective-IsProb free p h = h
effective-IsProb (commission_bps bps) p h = ground (arith, commission_range p bps h)
effective-IsProb (stake_fee_bps bps) p h = ground (arith, stake_fee_range p bps h)
effective-IsProb (maker_rebate_bps bps) p h = ground (arith, rebate_range p bps h)

-- A commission or a stake fee, rounding included, never makes a price longer than it was quoted;
-- a maker rebate never makes it shorter.
pub effective_direction :
    (f : Fee) (p : Prob)
    → IsProb p
    → (TakesCut f → p.ppm ≤ (effective f p).ppm)
      × ((bps : ℕ) → f ≡ maker_rebate_bps bps → (effective f p).ppm ≤ p.ppm)
unfolding effective
effective_direction free p h = (λ t. omega arith, λ b e. cc)
effective_direction (commission_bps bps) p h =
    (λ t. ground (arith, commission_range p bps h), λ b e. cc)
effective_direction (stake_fee_bps bps) p h =
    (λ t. ground (arith, stake_fee_range p bps h), λ b e. cc)
effective_direction (maker_rebate_bps bps) p h =
    (λ t. ground arith, λ b e. ground (arith, rebate_range p bps h))
