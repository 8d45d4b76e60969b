-- ===== src/Core/Arb/Report.antt =====
-- The reported numbers (Core/Arb/Detect.antt, crates/arbkit-core/src/arb.rs, the end of `plan`):
-- what a signal says of its total and its profit is what its allocations add up to.
use native.Mathlib.Nat.{zero-mul, zero-div}
use native.Mathlib.Decide.{ℕ_discrete}
use arbkit.Prelude.{
  ℕ, zero, suc, ◌+◌, ◌≤◌, ◌<◌, ◌≡◌, ◌≢◌, refl, sym, subst, Bool, not, ◌||◌, some, List, [], ◌∷◌,
  length, All, arith, ◌==◌, ==→eq, Bool-cases, inl, inr, if◌then◌else◌, take-append,
}
use arbkit.Prelude.Int.{
  ℤ, pos, negsuc, pos_part, ◌+ℤ◌, ◌≤ℤ◌, ◌<ℤ◌, leb_ℤ, sub_ℕ, clamp_i64, int_laws,
}
use arbkit.Core.Arb.{Chunk, Chunks, Slot, Allocation, Signal, allocations, payout}
use arbkit.Core.Arb.Sizing.{total_of, group_payout, worst_of}
use arbkit.Core.Arb.Candidates.{plan_profit, best_plan}
use arbkit.Core.Arb.Detect.{allocate, signal_of, report}
use arbkit.Core.Arb.Fits.{chunks_of}
use arbkit.Core.Arb.Targets.{IsPlan}
use arbkit.Core.Arb.Search.{IsBest, Judged}

-- The stakes of the allocations, summed.
abbrev pub staked : List Allocation → ℕ
staked [] = 0
staked (a ∷ as_) = a.stake + staked as_

-- What the allocations return whose leg passes the test.
abbrev pub paid_if : (ℕ → Bool) → List Allocation → ℕ
paid_if test [] = 0
paid_if test (a ∷ as_) = (if test a.leg then a.payout else 0) + paid_if test as_

staked-allocate : (ss : List Slot) → staked (allocate ss) ≡ total_of ss
unfolding allocate total_of
staked-allocate [] = refl
staked-allocate (s ∷ ss) = ground (arith, staked-allocate ss)

payout-zero : (c : Chunk) → payout c 0 ≡ 0
unfolding payout
payout-zero c = rw (zero-mul, zero-div) (omega arith)

-- Where the test on legs tells the group, the payouts of the allocations are those of the slots.
paid_if-allocate :
    (test : ℕ → Bool) (g : ℕ) (ss : List Slot)
    → All (λ c. test c.leg ≡ (c.group == g)) (chunks_of ss)
    → paid_if test (allocate ss) ≡ group_payout g ss
unfolding allocate group_payout
paid_if-allocate test g [] h = refl
paid_if-allocate test g (s ∷ ss) h = elim (Bool-cases (s.stake == 0)) [
  | inl idle ↦
      let z : s.stake ≡ 0 = ==→eq s.stake 0 idle in
      rw (idle, z, payout-zero s.chunk) (ground (arith, paid_if-allocate test g ss h.1))
  | inr active ↦ rw (active, h.0, paid_if-allocate test g ss h.1)
]

worst_of-le : (n g : ℕ) (ss : List Slot) → g < n → worst_of n ss ≤ group_payout g ss
unfolding worst_of
worst_of-le zero g ss h = absurd (omega arith)
worst_of-le (suc n) g ss h = elim (ℕ_discrete g n) [
  | yes e ↦ rw e (omega arith)
  | no ne ↦ omega (arith, worst_of-le n g ss (omega arith))
]

-- What is left of a difference after the clamp, if it is positive, is at most the difference.
clamp_gain : (w t : ℕ) → pos 0 <ℤ clamp_i64 (sub_ℕ w t) → t + pos_part (clamp_i64 (sub_ℕ w t)) ≤ w
clamp_gain w t h = ground arith

positive_part : (a : ℤ) → pos 0 <ℤ a → a ≡ pos (pos_part a)
positive_part (pos n) h = refl
positive_part (negsuc n) h = absurd (omega arith)

-- A positive profit, added to the total, is at most what every group is paid.
profit_covered :
    (n g : ℕ) (ss : List Slot)
    → g < n
    → pos 0 <ℤ plan_profit n ss
    → pos (total_of ss) +ℤ plan_profit n ss ≤ℤ pos (group_payout g ss)
unfolding plan_profit
profit_covered n g ss h p =
    let c = clamp_i64 (sub_ℕ (worst_of n ss) (total_of ss)) in
    rw (positive_part c p)
      (omega (int_laws, clamp_gain (worst_of n ss) (total_of ss) p, worst_of-le n g ss h))

-- A property of slots with a stake carries over to the allocations.
pub allocate-All :
    (P : Slot → Type 0) (Q : Allocation → Type 0) (ss : List Slot)
    → ((s : Slot)
        → P s
        → s.stake ≢ 0
        → Q (record { leg = s.chunk.leg; stake = s.stake; payout = payout s.chunk s.stake }))
    → All P ss
    → All Q (allocate ss)
unfolding allocate
allocate-All P Q [] f h = tt
allocate-All P Q (s ∷ ss) f h = elim (Bool-cases (s.stake == 0)) [
  | inl idle ↦ rw idle (allocate-All P Q ss f h.1)
  | inr active ↦ rw active (f s h.0 (ground arith), allocate-All P Q ss f h.1)
]

-- What a report says of the plan that it is made from.
pub record Reported (overround : ℕ) (cs : Chunks) (s : Signal) : Type 0 where
  pub plan : List Slot
  pub is_plan : IsPlan cs plan
  pub allocated : allocations s ≡ allocate plan
  pub total : s.total_stake ≡ total_of plan
  pub profit : s.worst_case_profit ≡ plan_profit cs.n_groups plan
  pub gains : pos 0 <ℤ s.worst_case_profit
  pub edge : s.overround_ppm ≡ overround

pub report-Reported :
    (overround : ℕ) (cs : Chunks) (s : Signal)
    → IsBest cs (best_plan cs)
    → report overround cs ≡ some s
    → Reported overround cs s
unfolding report signal_of allocations
report-Reported v cs s h e =
    let b = best_plan cs in
    elim (Bool-cases (not b.found || leb_ℤ b.profit (pos 0))) [
      | inl rejected ↦ cc (rw (rejected, report) at e)
      | inr taken ↦
          let j : Judged cs b = h (ground arith) in
          let e' : some (signal_of v b) ≡ some s = rw (taken, report) at e in
          let q : signal_of v b ≡ s = cc in
          rw (← q) (record {
            plan = b.plan;
            is_plan = j.is_plan;
            allocated = take-append (length (allocate b.plan)) (allocate b.plan) _ refl;
            total = j.totalled;
            profit = j.scored;
            gains = ground arith;
            edge = refl;
          })
    ]

-- The stakes of a reported signal add up to its total, which the budget covers.
pub Reported-total :
    (v : ℕ) (cs : Chunks) (s : Signal)
    → Reported v cs s
    → (staked (allocations s) ≡ s.total_stake) × (s.total_stake ≤ cs.budget)
Reported-total v cs s r =
    (rw (r.allocated, r.total) (staked-allocate r.plan), rw (r.total) r.is_plan.funded)

-- Whichever group settles, the allocations that back it return the total and the profit.
pub Reported-covered :
    (v : ℕ) (cs : Chunks) (s : Signal) (test : ℕ → Bool) (g : ℕ)
    → Reported v cs s
    → g < cs.n_groups
    → All (λ c. test c.leg ≡ (c.group == g)) cs.chunks
    → pos s.total_stake +ℤ s.worst_case_profit ≤ℤ pos (paid_if test (allocations s))
Reported-covered v cs s test g r lt h =
    rw
      (
        r.allocated,
        paid_if-allocate test g r.plan
            (subst (All (λ c. test c.leg ≡ (c.group == g))) (sym r.is_plan.same) h),
        r.total,
        r.profit,
      )
      (profit_covered cs.n_groups g r.plan lt (subst (λ p. pos 0 <ℤ p) r.profit r.gains))
