-- ===== src/Core/Fee.antt =====
-- crates/arbkit-core/src/fee.rs: what a venue takes, as a change of the quoted price.
-- Rates are u32; no product here reaches 2 ^ 64, so the u64 arithmetic is exact.
pub mod Laws
use arbkit.Prelude.{ℕ, ◌+◌, ◌-◌, ◌*◌, ◌/◌, min, max, ◌==◌, if◌then◌else◌}
use arbkit.Prelude.Division.{ceil_div}
use arbkit.Core.Error.{unwrap_or}
use arbkit.Core.Price.{Prob, certain, ppm_one, odds_one, as_u32, from_ppm, to_odds}

abbrev pub bps_one : ℕ
bps_one = 10_000

pub data Fee : Type 0 where
  free : Fee
  commission_bps : ℕ → Fee
  stake_fee_bps : ℕ → Fee
  maker_rebate_bps : ℕ → Fee

-- The arms of `effective` at a rate that is not zero.
unfoldable pub after_commission : ℕ → Prob → Prob
after_commission rate quoted =
    let bps = min rate bps_one in
    let decimal = (to_odds quoted).micro in
    let net = odds_one + (decimal - odds_one) * (bps_one - bps) / bps_one in
    unwrap_or (from_ppm (as_u32 (min (ceil_div (ppm_one * odds_one) net) ppm_one))) certain

unfoldable pub after_stake_fee : ℕ → Prob → Prob
after_stake_fee bps quoted =
    let inflated = quoted.ppm * (bps_one + bps) / bps_one in
    unwrap_or (from_ppm (as_u32 (min inflated ppm_one))) certain

unfoldable pub after_rebate : ℕ → Prob → Prob
after_rebate rate quoted =
    let bps = min rate bps_one in
    let shrunk = quoted.ppm * (bps_one - bps) / bps_one in
    unwrap_or (from_ppm (as_u32 (max shrunk 1))) (record { ppm = 1 })

unfoldable pub effective : Fee → Prob → Prob
unfolding after_commission after_stake_fee after_rebate
effective free quoted = quoted
effective (commission_bps bps) quoted = if bps == 0 then quoted else after_commission bps quoted
effective (stake_fee_bps bps) quoted = if bps == 0 then quoted else after_stake_fee bps quoted
effective (maker_rebate_bps bps) quoted = if bps == 0 then quoted else after_rebate bps quoted

unfoldable pub kalshi_stake_fee_bps : Prob → ℕ
kalshi_stake_fee_bps price = as_u32 (700 * (ppm_one - price.ppm) / ppm_one)
