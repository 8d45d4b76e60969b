-- ===== src/Core/Arb/Optimal.antt =====
-- The best plan and the end of the search (Core/Arb/Candidates.antt, crates/arbkit-core/src/arb.rs).
use arbkit.Prelude.{
  suc, ◌≤◌, ◌<◌, ◌≡◌, ◌⊎◌, refl, sym, ◌∙◌, subst, true, none, some, List, length, All, arith, inl,
  inr,
}
use arbkit.Prelude.Int.{◌≤ℤ◌, i64_max}
use arbkit.Core.Arb.{Chunks, Slot}
use arbkit.Core.Arb.Sizing.{total_of, feasible}
use arbkit.Core.Arb.Candidates.{
  nothing_yet, plan_profit, offer, offer_seed, seed_plan, highest_of, search_result, best_plan,
}
use arbkit.Core.Arb.Fits.{IsChunk}
use arbkit.Core.Arb.Search.{offer_beats}
use arbkit.Core.Arb.Planned.{search_result-Ended}

module _ (cs : Chunks) (h : All IsChunk cs.chunks) (n : 1 ≤ cs.n_groups) (l : 1 ≤ length cs.chunks)
    (b : cs.budget ≤ i64_max) where
  -- The best plan found over valid chunks, at least one of them and one group, with a 64-bit
  -- budget, gains no less than the closed-form plan, if that plan stakes anything.
  pub best_plan_beats_seed :
      (plan : List Slot)
      → seed_plan cs ≡ some plan
      → 0 < total_of plan
      → ((best_plan cs).found ≡ true) × (plan_profit cs.n_groups plan ≤ℤ (best_plan cs).profit)
  unfolding best_plan offer_seed
  best_plan_beats_seed plan e staked =
      let r = search_result-Ended cs h n l b in
      let q : offer_seed cs ≡ offer cs.n_groups plan nothing_yet = rw (e, offer_seed) refl in
      let (found, score) = offer_beats cs.n_groups plan nothing_yet staked in
      let (found', better) = r.kept (rw q found) in
      let score' : plan_profit cs.n_groups plan ≤ℤ (offer_seed cs).profit = rw q score in
      (found', omega arith)

  -- The search over the payouts of valid chunks, at least one of them and one group, with a
  -- 64-bit budget, closes its interval within its 96 steps. Where it ends a plan was found, or it
  -- is zero; and one payout more has no plan, or it is the highest payout that was considered.
  pub search_result_border :
      let s = search_result cs in
      (s.low ≡ s.high)
      × ((s.low ≡ 0) ⊎ ((plan : List Slot) × (feasible cs s.low ≡ some plan)))
      × ((s.low ≡ highest_of cs) ⊎ (feasible cs (suc s.low) ≡ none))
  search_result_border =
      let r = search_result-Ended cs h n l b in
      (
        r.met,
        elim (r.known.reached) [ inl z ↦ inl z | inr (plan, e, better) ↦ inr (plan, e) ],
        elim (r.known.blocked) [
          | inl z ↦ inl (r.met ∙ z)
          | inr e ↦ inr (subst (λ k. feasible cs (suc k) ≡ none) (sym r.met) e)
        ],
      )
