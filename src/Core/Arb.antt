-- ===== src/Core/Arb.antt =====
-- crates/arbkit-core/src/arb.rs: the arbitrage detector. This file has its vocabulary: legs, the
-- flattened chunks with the stakes put on them, allocations and signals. `Sizing` sizes a plan for
-- a payout target, `Candidates` keeps the best plan seen and searches the targets, and `Detect`
-- flattens the books and reports; the other children prove what these promise.
--
-- The i128 quantities of the sizing are never negative but for a plan's profit: they are naturals,
-- and the profit an integer. Products stay far below 2 ^ 127, so the i128 arithmetic is exact.
pub mod Sizing
pub mod Fits
pub mod Bumped
pub mod Targets
pub mod Search
pub mod Seed
pub mod Report
pub mod Backed
pub mod Flatten
pub mod Groups
pub mod Planned
pub mod Guarantee
pub mod Refused
pub mod Rejects
pub mod Optimal
pub mod Quotes
pub mod Candidates
pub mod Detect
use arbkit.Prelude.{
  ℕ, suc, ◌+◌, ◌*◌, ◌/◌, ◌-◌, Bool, true, false, Option, List, [], ◌∷◌, take, min, ltb,
  if◌then◌else◌,
}
use arbkit.Prelude.Division.{ceil_div}
use arbkit.Prelude.Int.{ℤ, pos, i64_max, ltb_ℤ}
use arbkit.Core.Price.{Prob, ppm_one}
use arbkit.Core.Fee.{Fee}
use arbkit.Core.Book.{Level, max_levels}

abbrev pub max_legs : ℕ
max_legs = 4

abbrev pub max_chunks : ℕ
max_chunks = 16

abbrev pub max_search_steps : ℕ
max_search_steps = 96

-- One quote.
pub record Leg : Type 0 where
  pub venue : ℕ
  pub outcome : ℕ
  pub quoted : Prob
  pub fee : Fee
  pub capacity : ℤ
  pub increment : ℤ

-- One venue's book for one outcome, best level first; entries past `n_levels` are ignored.
pub record BookLeg : Type 0 where
  pub venue : ℕ
  pub outcome : ℕ
  pub fee : Fee
  pub increment : ℤ
  pub levels : List Level
  pub n_levels : ℕ

pub record Allocation : Type 0 where
  pub leg : ℕ
  pub stake : ℕ
  pub payout : ℕ

-- `slots` is the fixed array, of which the first `len` entries count.
pub record Signal : Type 0 where
  pub slots : List Allocation
  pub len : ℕ
  pub overround_ppm : ℕ
  pub total_stake : ℕ
  pub worst_case_profit : ℤ
  pub profit_bps : ℕ

unfoldable pub from_raw_parts : List Allocation → ℕ → ℕ → ℕ → ℤ → ℕ → Signal
from_raw_parts slots len overround_ppm total_stake worst_case_profit profit_bps = record {
  slots = slots;
  len = if ltb max_chunks len then max_chunks else len;
  overround_ppm = overround_ppm;
  total_stake = total_stake;
  worst_case_profit = worst_case_profit;
  profit_bps = profit_bps;
}

unfoldable pub allocations : Signal → List Allocation
allocations s = take s.len s.slots

abbrev pub round_up_to : ℕ → ℕ → ℕ
round_up_to value step = ceil_div value step * step

abbrev pub round_down_to : ℕ → ℕ → ℕ
round_down_to value step = value / step * step

-- `to_cents` of a number that is not negative.
abbrev pub to_cents : ℕ → ℕ
to_cents value = min value i64_max

-- One entry of each of the parallel arrays of `Chunks`.
pub record Chunk : Type 0 where
  pub leg : ℕ
  pub group : ℕ
  pub price : ℕ
  pub increment : ℕ
  pub capacity : ℕ
  pub resting : ℕ

pub record Chunks : Type 0 where
  pub chunks : List Chunk
  pub n_groups : ℕ
  pub budget : ℕ

-- A chunk with its entry of the `stakes` array, and of the `active` and `freeze` arrays that
-- `distribute` keeps while it works.
pub record Slot : Type 0 where
  pub chunk : Chunk
  pub stake : ℕ
  pub active : Bool
  pub freeze : Bool

-- Gross return of a stake on a chunk, floored.
unfoldable pub payout : Chunk → ℕ → ℕ
payout c stake = to_cents (stake * ppm_one / c.price)
