-- ===== src/Core/Arb/Detect.antt =====
-- The detector proper (crates/arbkit-core/src/arb.rs, `plan`, `detect_book` and `detect`): grouping
-- the legs, flattening their levels into chunks, and reporting the best plan. The `taken` bit masks
-- are a list of the pairs of leg and level whose bit is set.
use arbkit.Prelude.{
  ℕ, zero, suc, ◌-◌, ◌/◌, ◌^◌, Bool, false, not, ◌&&◌, ◌||◌, Option, none, some, List, [], ◌∷◌,
  ◌++◌, map, length, take, get_or, replicate, min, ltb, leb, ◌==◌, if◌then◌else◌,
}
use arbkit.Prelude.Int.{ℤ, pos, pos_part, leb_ℤ, ltb_ℤ, tdiv, scale, i64_max}
use arbkit.Core.Error.{Result, ok, err, leg_count_out_of_range, zero_stake_increment}
use arbkit.Core.Price.{Prob, ppm_one}
use arbkit.Core.Fee.{free, effective}
use arbkit.Core.Book.{Level, blank_level, max_levels}
use arbkit.Core.Arb.{
  Leg, BookLeg, Allocation, Signal, Chunk, Chunks, Slot, payout, max_legs, max_chunks,
}
use arbkit.Core.Arb.Candidates.{Best, overround_of, best_plan}

abbrev pub usable_levels : BookLeg → ℕ
usable_levels leg = min leg.n_levels max_levels

unfoldable pub effective_ppm : BookLeg → Level → ℕ
unfolding effective
effective_ppm leg level = (effective leg.fee level.price).ppm

-- The size floored to the increment, if it holds one increment at least.
unfoldable pub usable_capacity : BookLeg → Level → Option ℕ
usable_capacity leg level =
    if leb_ℤ leg.increment (pos 0)
    then none
    else let capacity = scale (tdiv level.size (pos_part leg.increment)) (pos_part leg.increment) in
      if ltb_ℤ capacity leg.increment then none else some (pos_part capacity)

unfoldable pub chunk_of : ℕ → ℕ → BookLeg → Level → ℕ → Chunk
unfolding effective_ppm
chunk_of i group leg level capacity = record {
  leg = i;
  group = group;
  price = effective_ppm leg level;
  increment = pos_part leg.increment;
  capacity = capacity;
  resting = pos_part level.size;
}

-- The best level so far: where it stands, and the chunk that it makes.
pub record Pick : Type 0 where
  pub at : ℕ × ℕ
  pub chunk : Chunk

unfoldable pub better_pick : Option Pick → Pick → Option Pick
better_pick none p = some p
better_pick (some b) p = if ltb p.chunk.price b.chunk.price then some p else some b

unfoldable pub pick_levels : ℕ → ℕ → BookLeg → ℕ → List Level → Option Pick → Option Pick
unfolding better_pick usable_capacity chunk_of
pick_levels group i leg l [] best = best
pick_levels group i leg l (level ∷ levels) best =
    pick_levels group i leg (suc l) levels (elim (usable_capacity leg level) [
      | none ↦ best
      | some capacity ↦
          better_pick best (record { at = (i, l); chunk = chunk_of i group leg level capacity })
    ])

unfoldable pub pick_legs : List ℕ → ℕ → ℕ → List BookLeg → Option Pick → Option Pick
unfolding pick_levels
pick_legs group_of group i [] best = best
pick_legs group_of group i (leg ∷ legs) best = pick_legs group_of group (suc i) legs (
    if get_or group_of i 0 == group
    then pick_levels group i leg 0 (take (usable_levels leg) leg.levels) best
    else best)

-- What the flattening has put together.
pub record Flat : Type 0 where
  pub chunks : List Chunk
  pub taken : List (ℕ × ℕ)

abbrev pub nothing_taken : Flat
nothing_taken = record { chunks = []; taken = [] }

abbrev pub add_chunk : Flat → ℕ × ℕ → Chunk → Flat
add_chunk f at c = record { chunks = f.chunks ++ (c ∷ []); taken = at ∷ f.taken }

-- Pass one over the groups from `group` on, `n` of them: the best level of each.
unfoldable pub pass_one : List BookLeg → List ℕ → ℕ → ℕ → Flat → Option Flat
pass_one legs group_of zero group flat = some flat
pass_one legs group_of (suc n) group flat = elim (pick_legs group_of group 0 legs none) [
  | none ↦ none
  | some p ↦ pass_one legs group_of n (suc group) (add_chunk flat p.at p.chunk)
]

unfoldable pub is_taken : ℕ → ℕ → List (ℕ × ℕ) → Bool
is_taken i l [] = false
is_taken i l (t ∷ ts) = (t.0 == i && t.1 == l) || is_taken i l ts

unfoldable pub take_level : ℕ → ℕ → BookLeg → ℕ → Level → Flat → Flat
unfolding is_taken usable_capacity chunk_of
take_level group i leg l level flat =
    if length flat.chunks == max_chunks
    then flat
    else if is_taken i l flat.taken
    then flat
    else elim (usable_capacity leg level) [
      | none ↦ flat
      | some capacity ↦ add_chunk flat (i, l) (chunk_of i group leg level capacity)
    ]

unfoldable pub take_levels : ℕ → ℕ → BookLeg → ℕ → List Level → Flat → Flat
unfolding take_level
take_levels group i leg l [] flat = flat
take_levels group i leg l (level ∷ levels) flat =
    take_levels group i leg (suc l) levels (take_level group i leg l level flat)

-- Pass two: the rest of the depth, until the chunks are full. Once they are full every level is
-- passed over, as after the `break`.
unfoldable pub pass_two : List ℕ → ℕ → List BookLeg → Flat → Flat
pass_two group_of i [] flat = flat
pass_two group_of i (leg ∷ legs) flat =
    pass_two group_of (suc i) legs
      (take_levels (get_or group_of i 0) i leg 0 (take (usable_levels leg) leg.levels) flat)

-- The first leg that has levels and no increment, from index `i` on.
unfoldable pub zero_increment : ℕ → List BookLeg → Option ℕ
zero_increment i [] = none
zero_increment i (leg ∷ legs) =
    if ltb 0 leg.n_levels && leb_ℤ leg.increment (pos 0)
    then some i
    else zero_increment (suc i) legs

-- The stakes that are not zero, as allocations.
unfoldable pub allocate : List Slot → List Allocation
allocate [] = []
allocate (s ∷ ss) =
    if s.stake == 0
    then allocate ss
    else record { leg = s.chunk.leg; stake = s.stake; payout = payout s.chunk s.stake }
      ∷ allocate ss

abbrev pub blank_allocation : Allocation
blank_allocation = record { leg = 0; stake = 0; payout = 0 }

unfoldable pub signal_of : ℕ → Best → Signal
signal_of overround best =
    let chosen = allocate best.plan in
    record {
      slots = chosen ++ replicate (max_chunks - length chosen) blank_allocation;
      len = length chosen;
      overround_ppm = overround;
      total_stake = best.total;
      worst_case_profit = best.profit;
      profit_bps = min (pos_part (tdiv (scale best.profit 10_000) best.total)) (2 ^ 32 - 1);
    }

-- The part of `plan` after the chunks are flattened.
unfoldable pub report : ℕ → Chunks → Option Signal
report overround cs =
    let best = best_plan cs in
    if not best.found || leb_ℤ best.profit (pos 0) then none else some (signal_of overround best)

unfoldable pub plan : List BookLeg → List ℕ → ℕ → ℤ → Result (Option Signal)
plan legs group_of n_groups budget = elim (zero_increment 0 legs) [
  | some i ↦ err (zero_stake_increment i)
  | none ↦
      if leb_ℤ budget (pos 0)
      then ok none
      else elim (pass_one legs group_of n_groups 0 nothing_taken) [
        | none ↦ ok none
        | some flat ↦
            let overround = overround_of n_groups flat.chunks in
            if leb ppm_one overround
            then ok none
            else ok (
                report overround (record {
                  chunks = (pass_two group_of 0 legs flat).chunks;
                  n_groups = n_groups;
                  budget = pos_part budget;
                }))
      ]
]

-- The group of an outcome among those seen, which stand in the order of first appearance.
unfoldable pub find_group : ℕ → ℕ → List ℕ → Option ℕ
find_group outcome g [] = none
find_group outcome g (o ∷ os) = if o == outcome then some g else find_group outcome (suc g) os

-- An outcome's group, a new one if it was not seen before, and the outcomes seen with it.
unfoldable pub join_group : ℕ → List ℕ → ℕ × List ℕ
unfolding find_group
join_group outcome outcomes = elim (find_group outcome 0 outcomes) [
  | some g ↦ (g, outcomes)
  | none ↦ (length outcomes, outcomes ++ (outcome ∷ []))
]

-- The group of each leg, and the outcomes of the groups.
unfoldable pub group_legs : List BookLeg → List ℕ → List ℕ × List ℕ
unfolding join_group
group_legs [] outcomes = ([], outcomes)
group_legs (leg ∷ legs) outcomes =
    let (g, seen) = join_group leg.outcome outcomes in
    let (gs, all) = group_legs legs seen in (g ∷ gs, all)

unfoldable pub detect_book : List BookLeg → ℤ → Result (Option Signal)
detect_book legs budget =
    if ltb (length legs) 2 || ltb max_chunks (length legs)
    then err (leg_count_out_of_range (length legs))
    else let (group_of, outcomes) = group_legs legs [] in
      if ltb (length outcomes) 2
      then err (leg_count_out_of_range (length outcomes))
      else plan legs group_of (length outcomes) budget

-- One quote as a book of one level.
unfoldable pub book_leg : Leg → BookLeg
book_leg leg = record {
  venue = leg.venue;
  outcome = leg.outcome;
  fee = leg.fee;
  increment = leg.increment;
  levels = record { price = leg.quoted; size = leg.capacity } ∷ replicate 7 blank_level;
  n_levels = 1;
}

-- `0, 1, …`: every leg is its own group.
abbrev pub count_from : ℕ → ℕ → List ℕ
count_from i zero = []
count_from i (suc n) = i ∷ count_from (suc i) n

unfoldable pub detect : List Leg → ℤ → Result (Option Signal)
detect legs budget =
    if ltb (length legs) 2 || ltb max_legs (length legs)
    then err (leg_count_out_of_range (length legs))
    else plan (map book_leg legs) (count_from 0 (length legs)) (length legs) budget

unfoldable pub frictionless_leg : ℕ → ℕ → Prob → Leg
frictionless_leg venue outcome quoted = record {
  venue = venue;
  outcome = outcome;
  quoted = quoted;
  fee = free;
  capacity = pos (i64_max / 4);
  increment = pos 1;
}
