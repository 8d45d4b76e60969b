-- ===== src/Core/Arb/Candidates.antt =====
-- The candidate plans (crates/arbkit-core/src/arb.rs, `Best::offer` and the candidate part of
-- `plan`): the closed-form plan on the best price of each outcome, then the plans that a binary
-- search on the guaranteed payout finds.
use arbkit.Prelude.{
  ℕ, zero, suc, ◌+◌, ◌-◌, ◌*◌, ◌/◌, Bool, true, false, not, ◌||◌, Option, none, some, List, [], ◌∷◌,
  min, leb, ◌==◌, if◌then◌else◌,
}
use arbkit.Prelude.Int.{ℤ, pos, sub_ℕ, ltb_ℤ, clamp_i64}
use arbkit.Core.Price.{ppm_one}
use arbkit.Core.Arb.{Chunk, Chunks, Slot, payout, round_down_to, max_search_steps}
use arbkit.Core.Arb.Sizing.{empty_slot, evaluate, feasible}

-- `stakes` is the slots; what an empty one holds is never read.
pub record Best : Type 0 where
  pub plan : List Slot
  pub total : ℕ
  pub profit : ℤ
  pub found : Bool

abbrev pub nothing_yet : Best
nothing_yet = record { plan = []; total = 0; profit = pos 0; found = false }

-- The profit of a plan, recomputed from its stakes.
unfoldable pub plan_profit : ℕ → List Slot → ℤ
plan_profit n_groups plan =
    let (total, worst) = evaluate n_groups plan in clamp_i64 (sub_ℕ worst total)

unfoldable pub offer : ℕ → List Slot → Best → Best
offer n_groups plan best =
    let (total, worst) = evaluate n_groups plan in
    if total == 0
    then best
    else if not best.found || ltb_ℤ best.profit (plan_profit n_groups plan)
    then record { plan = plan; total = total; profit = plan_profit n_groups plan; found = true }
    else best

-- The overround: the sum of the prices of the first `n` chunks, the best of each group.
unfoldable pub overround_of : ℕ → List Chunk → ℕ
overround_of zero cs = 0
overround_of (suc n) [] = 0
overround_of (suc n) (c ∷ cs) = c.price + overround_of n cs

-- The most that the budget and the resting sizes of the first `n` chunks let the plan stake.
unfoldable pub ceiling_of : ℕ → ℕ → ℕ → List Chunk → ℕ
ceiling_of overround ceiling zero cs = ceiling
ceiling_of overround ceiling (suc n) [] = ceiling
ceiling_of overround ceiling (suc n) (c ∷ cs) =
    ceiling_of overround (min ceiling (c.resting * overround / c.price)) n cs

abbrev pub seed_stake : ℕ → ℕ → Chunk → ℕ
seed_stake ceiling overround c = round_down_to (ceiling * c.price / overround) c.increment

-- The closed-form stakes on the first `n` chunks and none on the others; nothing if a stake
-- rounds down to zero.
unfoldable pub seed_slots : ℕ → ℕ → ℕ → List Chunk → Option (List Slot)
seed_slots ceiling overround n [] = some []
seed_slots ceiling overround zero (c ∷ cs) = elim (seed_slots ceiling overround zero cs) [
  | none ↦ none
  | some ss ↦ some (empty_slot c ∷ ss)
]
seed_slots ceiling overround (suc n) (c ∷ cs) =
    if seed_stake ceiling overround c == 0 then none else elim (seed_slots ceiling overround n cs) [
      | none ↦ none
      | some ss ↦ some (record (empty_slot c) { stake = seed_stake ceiling overround c } ∷ ss)
    ]

unfoldable pub seed_plan : Chunks → Option (List Slot)
seed_plan cs =
    let overround = overround_of cs.n_groups cs.chunks in
    let ceiling = ceiling_of overround cs.budget cs.n_groups cs.chunks in
    if ceiling == 0 then none else seed_slots ceiling overround cs.n_groups cs.chunks

unfoldable pub offer_seed : Chunks → Best
offer_seed cs = elim (seed_plan cs) [
  | none ↦ nothing_yet
  | some plan ↦ offer cs.n_groups plan nothing_yet
]

unfoldable pub cheapest_of : List Chunk → ℕ
cheapest_of [] = ppm_one
cheapest_of (c ∷ cs) = min (cheapest_of cs) c.price

-- The most that the chunks of a group can pay.
unfoldable pub reach_of : ℕ → List Chunk → ℕ
reach_of group [] = 0
reach_of group (c ∷ cs) = (if c.group == group then payout c c.capacity else 0) + reach_of group cs

unfoldable pub lower_to_reach : ℕ → List Chunk → ℕ → ℕ
lower_to_reach zero cs highest = highest
lower_to_reach (suc n) cs highest = min (lower_to_reach n cs highest) (reach_of n cs)

unfoldable pub highest_of : Chunks → ℕ
highest_of cs = lower_to_reach cs.n_groups cs.chunks (cs.budget * ppm_one / cheapest_of cs.chunks)

-- The variables of the search as it ends.
pub record Search : Type 0 where
  pub low : ℕ
  pub high : ℕ
  pub best : Best

abbrev pub midpoint : ℕ → ℕ → ℕ
midpoint low high = low + (high - low + 1) / 2

unfoldable pub run_search : ℕ → Chunks → ℕ → ℕ → Best → Search
run_search zero cs low high best = record { low = low; high = high; best = best }
run_search (suc steps) cs low high best = elim (leb high low) [
  | true ↦ record { low = low; high = high; best = best }
  | false ↦ elim (feasible cs (midpoint low high)) [
    | some plan ↦ run_search steps cs (midpoint low high) high (offer cs.n_groups plan best)
    | none ↦ run_search steps cs low (midpoint low high - 1) best
  ]
]

unfoldable pub search_result : Chunks → Search
search_result cs = run_search max_search_steps cs 0 (highest_of cs) (offer_seed cs)

unfoldable pub best_plan : Chunks → Best
best_plan cs = (search_result cs).best
