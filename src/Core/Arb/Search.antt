-- ===== src/Core/Arb/Search.antt =====
-- The candidates (Core/Arb/Candidates.antt, crates/arbkit-core/src/arb.rs): what holds of the best
-- plan whatever is offered, and how the binary search on the payout ends.
use native.Mathlib.Nat.{pow-suc}
use arbkit.Prelude.{
  ℕ, zero, suc, ◌-◌, ◌*◌, ◌^◌, ◌≤◌, ◌<◌, ◌≡◌, ◌⊎◌, refl, subst, true, not, ◌||◌, none, some, List,
  All, arith, leb, leb→le, leb-false, ◌==◌, Bool-cases, Option-cases, inl, inr,
}
use arbkit.Prelude.Int.{◌≤ℤ◌, ltb_ℤ}
use arbkit.Core.Arb.{Chunks, Slot}
use arbkit.Core.Arb.Sizing.{total_of, feasible}
use arbkit.Core.Arb.Candidates.{Best, plan_profit, offer, highest_of, midpoint, Search, run_search}
use arbkit.Core.Arb.Fits.{IsChunk}
use arbkit.Core.Arb.Targets.{IsPlan, feasible-IsPlan}

-- What is known of a best plan that was found.
pub record Judged (cs : Chunks) (b : Best) : Type 0 where
  pub is_plan : IsPlan cs b.plan
  pub totalled : b.total ≡ total_of b.plan
  pub staked : 0 < b.total
  pub scored : b.profit ≡ plan_profit cs.n_groups b.plan

abbrev pub IsBest : Chunks → Best → Type 0
IsBest cs b = b.found ≡ true → Judged cs b

-- One best plan is no worse than another.
abbrev pub NoWorse : Best → Best → Type 0
NoWorse a b = a.found ≡ true → (b.found ≡ true) × (a.profit ≤ℤ b.profit)

-- An offer keeps what is known of the best plan.
pub offer-IsBest :
    (cs : Chunks) (plan : List Slot) (b : Best)
    → IsPlan cs plan
    → IsBest cs b
    → IsBest cs (offer cs.n_groups plan b)
unfolding offer
offer-IsBest cs plan b h k = elim (Bool-cases (total_of plan == 0)) [
  | inl idle ↦ rw idle k
  | inr staked ↦ elim (Bool-cases (not b.found || ltb_ℤ b.profit (plan_profit cs.n_groups plan))) [
    | inl wins ↦
        rw (staked, wins)
          (λ e. record { is_plan = h; totalled = refl; staked = ground arith; scored = refl })
    | inr loses ↦ rw (staked, loses) k
  ]
]

-- An offer never makes the best plan worse.
pub offer-NoWorse : (n : ℕ) (plan : List Slot) (b : Best) → NoWorse b (offer n plan b)
unfolding offer
offer-NoWorse n plan b f = ground arith

-- After an offer of a plan that stakes anything, the best plan is no worse than it.
pub offer_beats :
    (n : ℕ) (plan : List Slot) (b : Best)
    → 0 < total_of plan
    → ((offer n plan b).found ≡ true) × (plan_profit n plan ≤ℤ (offer n plan b).profit)
unfolding offer
offer_beats n plan b h = ground arith

NoWorse-trans : (a b c : Best) → NoWorse a b → NoWorse b c → NoWorse a c
NoWorse-trans a b c h k f = let (g, le) = h f in let (g', le') = k g in (g', omega arith)

-- What the search knows of its variables.
pub record IsSearch (cs : Chunks) (low high : ℕ) (b : Best) : Type 0 where
  pub ordered : low ≤ high
  pub best_ok : IsBest cs b
  pub reached :
      (low ≡ 0)
      ⊎ ((plan : List Slot) × (feasible cs low ≡ some plan)
          × (0 < total_of plan → (b.found ≡ true) × (plan_profit cs.n_groups plan ≤ℤ b.profit)))
  pub blocked : (high ≡ highest_of cs) ⊎ (feasible cs (suc high) ≡ none)

-- How the search ends, begun with a gap below 2 ^ steps: the bounds have met, and no plan seen on
-- the way is better than the one kept.
pub record Ended (cs : Chunks) (b : Best) (s : Search) : Type 0 where
  pub met : s.low ≡ s.high
  pub known : IsSearch cs s.low s.high s.best
  pub kept : NoWorse b s.best

-- The midpoint is above `low`, at most `high`, and at least halves the gap on either side.
halved :
    (steps low high : ℕ)
    → low < high
    → high - low < 2 ^ suc steps
    → let mid = midpoint low high in
      (low ≤ mid - 1)
      × (mid ≡ suc (mid - 1))
      × (mid ≤ high)
      × (mid - 1 - low < 2 ^ steps)
      × (high - mid < 2 ^ steps)
halved steps low high h gap =
    let e : 2 ^ suc steps ≡ 2 ^ steps * 2 = pow-suc 2 steps in
    (omega arith, omega arith, omega arith, omega (arith, e), omega (arith, e))

Ended-here :
    (cs : Chunks) (low high : ℕ) (b : Best)
    → IsSearch cs low high b
    → high ≤ low
    → Ended cs b (record { low = low; high = high; best = b })
Ended-here cs low high b v h = record { met = omega arith; known = v; kept = λ f. (f, omega arith) }

pub run_search-Ended :
    (steps : ℕ) (cs : Chunks) (low high : ℕ) (b : Best)
    → All IsChunk cs.chunks
    → IsSearch cs low high b
    → high - low < 2 ^ steps
    → Ended cs b (run_search steps cs low high b)
unfolding run_search
run_search-Ended zero cs low high b h v gap = Ended-here cs low high b v (omega arith)
run_search-Ended (suc steps) cs low high b h v gap = elim (Bool-cases (leb high low)) [
  | inl done ↦ rw (done, run_search) (Ended-here cs low high b v (leb→le _ _ done))
  | inr more ↦
      let (lo, succ, top, gap_low, gap_high) = halved steps low high (leb-false _ _ more) gap in
      elim (Option-cases (feasible cs (midpoint low high))) [
        | inl no_plan ↦
            rw (more, no_plan, run_search)
              (run_search-Ended steps cs low (midpoint low high - 1) b h
                (record {
                  ordered = lo;
                  best_ok = v.best_ok;
                  reached = v.reached;
                  blocked = inr (subst (λ k. feasible cs k ≡ none) succ no_plan);
                })
                gap_low)
        | inr (plan, fits) ↦
            let (is_plan, pays) = feasible-IsPlan cs (midpoint low high) plan h fits in
            let r =
              run_search-Ended steps cs (midpoint low high) high (offer cs.n_groups plan b) h
                (record {
                  ordered = top;
                  best_ok = offer-IsBest cs plan b is_plan v.best_ok;
                  reached = inr (plan, fits, offer_beats cs.n_groups plan b);
                  blocked = v.blocked;
                })
                gap_high in
            rw (more, fits, run_search)
              (record {
                met = r.met;
                known = r.known;
                kept =
                    NoWorse-trans b (offer cs.n_groups plan b)
                      (run_search steps cs (midpoint low high) high (offer cs.n_groups plan b)).best
                      (offer-NoWorse cs.n_groups plan b) r.kept;
              })
      ]
]
