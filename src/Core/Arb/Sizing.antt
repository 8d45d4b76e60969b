-- ===== src/Core/Arb/Sizing.antt =====
-- Sizing a plan (crates/arbkit-core/src/arb.rs, `Chunks::evaluate`, `distribute` and `feasible`).
-- The loops over the members of a group are walks over all slots that test the group.
use arbkit.Prelude.{
  ℕ, zero, suc, ◌+◌, ◌-◌, ◌*◌, ◌^◌, Bool, true, false, ◌&&◌, ◌||◌, Option, none, some, List, [],
  ◌∷◌, map, min, ltb, leb, ◌==◌, if◌then◌else◌,
}
use arbkit.Prelude.Division.{ceil_div}
use arbkit.Core.Price.{ppm_one}
use arbkit.Core.Arb.{Chunk, Chunks, Slot, payout, to_cents, round_up_to}

-- No stake on any chunk.
abbrev pub empty_slot : Chunk → Slot
empty_slot c = record { chunk = c; stake = 0; active = true; freeze = false }

abbrev pub in_group : ℕ → Slot → Bool
in_group group s = s.chunk.group == group

abbrev pub is_live : ℕ → Slot → Bool
is_live group s = in_group group s && s.active

-- The stakes, summed.
unfoldable pub total_of : List Slot → ℕ
total_of [] = 0
total_of (s ∷ ss) = s.stake + total_of ss

-- What the group's chunks return together.
unfoldable pub group_payout : ℕ → List Slot → ℕ
group_payout group [] = 0
group_payout group (s ∷ ss) =
    (if in_group group s then payout s.chunk s.stake else 0) + group_payout group ss

-- The least payout of the first `n` groups, from the greatest i128 on.
unfoldable pub worst_of : ℕ → List Slot → ℕ
worst_of zero ss = 2 ^ 127 - 1
worst_of (suc n) ss = min (worst_of n ss) (to_cents (group_payout n ss))

-- The total stake, and the payout of the worst outcome.
abbrev pub evaluate : ℕ → List Slot → ℕ × ℕ
evaluate n_groups ss = (total_of ss, worst_of n_groups ss)

unfoldable pub members : ℕ → List Slot → ℕ
members group [] = 0
members group (s ∷ ss) = (if in_group group s then 1 else 0) + members group ss

-- `price_sum` and `live` of a round.
unfoldable pub live_price : ℕ → List Slot → ℕ
live_price group [] = 0
live_price group (s ∷ ss) = (if is_live group s then s.chunk.price else 0) + live_price group ss

unfoldable pub live_count : ℕ → List Slot → ℕ
live_count group [] = 0
live_count group (s ∷ ss) = (if is_live group s then 1 else 0) + live_count group ss

-- The stake that buys a chunk's share of what remains, in whole increments.
unfoldable pub need : ℕ → ℕ → Chunk → ℕ
need remaining price_sum c =
    round_up_to (ceil_div (ceil_div (remaining * c.price) price_sum * c.price) ppm_one) c.increment

-- One live member's turn in a round: its share, or all that it can take.
unfoldable pub assign : ℕ → ℕ → ℕ → Slot → Slot
unfolding need
assign group remaining price_sum s =
    if is_live group s
    then if ltb s.chunk.capacity (need remaining price_sum s.chunk)
      then record s { stake = s.chunk.capacity; freeze = true }
      else record s { stake = need remaining price_sum s.chunk; freeze = false }
    else record s { freeze = false }

unfoldable pub capped_any : List Slot → Bool
capped_any [] = false
capped_any (s ∷ ss) = s.freeze || capped_any ss

unfoldable pub frozen_now : List Slot → ℕ
frozen_now [] = 0
frozen_now (s ∷ ss) = (if s.freeze then payout s.chunk s.stake else 0) + frozen_now ss

abbrev pub retire : Slot → Slot
retire s = if s.freeze then record s { active = false } else s

-- The stake that a covered target does not need.
abbrev pub clear_live : ℕ → Slot → Slot
clear_live group s = if is_live group s then record s { stake = 0 } else s

-- The rounds of the proportional split, at most one for each member. What remains is
-- `target - frozen_payout`, where a number below zero counts as zero: both end the split.
unfoldable pub split_rounds : ℕ → ℕ → ℕ → ℕ → List Slot → List Slot
unfolding live_price live_count assign capped_any frozen_now
split_rounds zero group target frozen_payout ss = ss
split_rounds (suc rounds) group target frozen_payout ss =
    let remaining = target - frozen_payout in
    let assigned = map (assign group remaining (live_price group ss)) ss in
    let rest =
      split_rounds rounds group target (frozen_payout + frozen_now assigned)
        (map retire assigned) in
    if live_count group ss == 0
    then ss
    else if remaining == 0
    then map (clear_live group) ss
    else if capped_any assigned
    then rest
    else assigned

-- A candidate of the repair loop: which slot, what one increment more gains, and what it costs.
pub record Bump : Type 0 where
  pub at : ℕ
  pub gain : ℕ
  pub step : ℕ

-- The incumbent stays where the newcomer's payout per cent is no higher.
unfoldable pub better_bump : Option Bump → Bump → Option Bump
better_bump none b = some b
better_bump (some a) b = if leb (b.gain * a.step) (a.gain * b.step) then some a else some b

abbrev pub bump_of : ℕ → Slot → Bump
bump_of i s = record {
  at = i;
  gain = payout s.chunk (s.stake + s.chunk.increment) - payout s.chunk s.stake;
  step = s.chunk.increment;
}

unfoldable pub best_bump : ℕ → ℕ → List Slot → Option Bump → Option Bump
unfolding better_bump
best_bump group i [] best = best
best_bump group i (s ∷ ss) best = best_bump group (suc i) ss (
    if in_group group s
    then if ltb s.chunk.capacity (s.stake + s.chunk.increment)
      then best
      else better_bump best (bump_of i s)
    else best)

unfoldable pub bump_at : ℕ → ℕ → List Slot → List Slot
bump_at i step [] = []
bump_at zero step (s ∷ ss) = record s { stake = s.stake + step } ∷ ss
bump_at (suc i) step (s ∷ ss) = s ∷ bump_at i step ss

-- The repair loop, at most one step for each member.
unfoldable pub repair : ℕ → ℕ → ℕ → ℕ → List Slot → ℕ × List Slot
unfolding best_bump bump_at
repair zero group target paid ss = (paid, ss)
repair (suc rounds) group target paid ss = elim (leb target paid) [
  | true ↦ (paid, ss)
  | false ↦ elim (best_bump group 0 ss none) [
    | none ↦ (paid, ss)
    | some b ↦ repair rounds group target (paid + b.gain) (bump_at b.at b.step ss)
  ]
]

abbrev pub wake : ℕ → Slot → Slot
wake group s = if in_group group s then record s { active = true; freeze = false } else s

-- Sizes one group to pay at least the target; the payout, with the slots, or nothing.
unfoldable pub distribute : ℕ → ℕ → List Slot → Option (ℕ × List Slot)
unfolding members split_rounds repair group_payout
distribute group target ss =
    let m = members group ss in
    let split = split_rounds m group target 0 (map (wake group) ss) in
    let (paid, sized) = repair m group target (group_payout group split) split in
    if ltb paid target then none else some (paid, sized)

-- The groups from `group` on, `n` of them.
unfoldable pub distribute_all : ℕ → ℕ → ℕ → List Slot → Option (List Slot)
distribute_all zero group target ss = some ss
distribute_all (suc n) group target ss = elim (distribute group target ss) [
  | none ↦ none
  | some r ↦ distribute_all n (suc group) target r.1
]

-- The plan for a guaranteed payout, if depth and budget allow one.
unfoldable pub feasible : Chunks → ℕ → Option (List Slot)
feasible cs target = elim (distribute_all cs.n_groups 0 target (map empty_slot cs.chunks)) [
  | none ↦ none
  | some ss ↦ if ltb cs.budget (total_of ss) then none else some ss
]
