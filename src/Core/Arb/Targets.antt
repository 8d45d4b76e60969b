-- ===== src/Core/Arb/Targets.antt =====
-- The sizing and its target (Core/Arb/Sizing.antt, crates/arbkit-core/src/arb.rs): the repair loop,
-- `distribute` and `feasible`.
use native.Mathlib.Decide.{ℕ_discrete}
use arbkit.Prelude.{
  ℕ, zero, suc, ◌+◌, ◌≤◌, ◌<◌, ◌≡◌, refl, sym, ap, ◌∙◌, subst, Option, none, some, List, [], ◌∷◌,
  map, All, arith, leb, ltb, ltb-false, Bool-cases, Option-cases, inl, inr, if◌then◌else◌,
}
use arbkit.Prelude.Division.{zero-IsMultiple}
use arbkit.Core.Arb.{Chunk, Chunks, Slot}
use arbkit.Core.Arb.Sizing.{
  empty_slot, total_of, group_payout, best_bump, bump_at, repair, members, split_rounds, wake,
  distribute, distribute_all, feasible,
}
use arbkit.Core.Arb.Fits.{
  IsChunk, Fits, Kept, Keeps-refl, Kept-trans, Kept-map, wake-IsLocal, split_rounds-Kept, chunks_of,
  chunks_of-Keeps, group_payout-Keeps,
}
use arbkit.Core.Arb.Bumped.{best_bump-Candidate, bump-Kept}

-- The payout that the loop keeps is the payout of the slots.
repair-Kept :
    (n g target paid : ℕ) (ss : List Slot)
    → All Fits ss
    → paid ≡ group_payout g ss
    → Kept g ss (repair n g target paid ss).1
      × ((repair n g target paid ss).0 ≡ group_payout g (repair n g target paid ss).1)
unfolding repair
repair-Kept zero g target paid ss a e = ((Keeps-refl g ss, a), e)
repair-Kept (suc n) g target paid ss a e = elim (Bool-cases (leb target paid)) [
  | inl done ↦ rw (done, repair) ((Keeps-refl g ss, a), e)
  | inr more ↦ elim (Option-cases (best_bump g 0 ss none)) [
    | inl stuck ↦ rw (more, stuck, repair) ((Keeps-refl g ss, a), e)
    | inr (b, found) ↦
        let (k1, e1) = bump-Kept g ss b a (best_bump-Candidate g ss b found) in
        let (k2, e2) =
          repair-Kept n g target (paid + b.gain) (bump_at b.at b.step ss) k1.1
            (ap (λ x. x + b.gain) e ∙ sym e1) in
        rw (more, found, repair) (Kept-trans g ss (bump_at b.at b.step ss) _ k1.0 k2, e2)
  ]
]

abbrev repaired : ℕ → ℕ → List Slot → ℕ × List Slot
repaired g target ss =
    let split = split_rounds (members g ss) g target 0 (map (wake g) ss) in
    repair (members g ss) g target (group_payout g split) split

repaired-Kept :
    (g target : ℕ) (ss : List Slot)
    → All Fits ss
    → Kept g ss (repaired g target ss).1
      × ((repaired g target ss).0 ≡ group_payout g (repaired g target ss).1)
repaired-Kept g target ss a =
    let woken = map (wake g) ss in
    let m = members g ss in
    let split = split_rounds m g target 0 woken in
    let k1 = Kept-map g (wake g) (wake-IsLocal g) ss a in
    let k2 = Kept-trans g ss woken split k1.0 (split_rounds-Kept m g target 0 woken k1.1) in
    let (k3, e) = repair-Kept m g target (group_payout g split) split k2.1 refl in
    (Kept-trans g ss split _ k2.0 k3, e)

pub distribute-Kept :
    (g target : ℕ) (ss : List Slot) {paid : ℕ} {ts : List Slot}
    → All Fits ss
    → distribute g target ss ≡ some (paid, ts)
    → Kept g ss ts × (target ≤ group_payout g ts)
unfolding distribute
distribute-Kept g target ss {paid} {ts} a e =
    elim (Bool-cases (ltb (repaired g target ss).0 target)) [
      | inl short ↦ cc (e, short)
      | inr reached ↦
          let e' : ◌≡◌ {A = Option (ℕ × List Slot)}
              (some ((repaired g target ss).0, (repaired g target ss).1)) (some (paid, ts)) =
            rw reached at e in
          let q : (repaired g target ss).1 ≡ ts = cc in
          let (kept, owed) = repaired-Kept g target ss a in
          subst (λ us. Kept g ss us × (target ≤ group_payout g us)) q
            (kept, omega (arith, owed, ltb-false (repaired g target ss).0 target reached))
    ]

-- The groups from `g` on, `n` of them, are each paid the target, and those before keep their pay.
distribute_all-Kept :
    (n g target : ℕ) (ss ts : List Slot)
    → All Fits ss
    → distribute_all n g target ss ≡ some ts
    → All Fits ts
      × (chunks_of ts ≡ chunks_of ss)
      × ((k : ℕ) → k < g → group_payout k ts ≡ group_payout k ss)
      × ((k : ℕ) → g ≤ k → k < g + n → target ≤ group_payout k ts)
unfolding distribute_all
distribute_all-Kept zero g target ss ts a e =
    let q : ss ≡ ts = cc in rw (← q) (a, refl, (λ k h. refl), (λ k h h'. absurd (omega arith)))
distribute_all-Kept (suc n) g target ss ts a e = elim (Option-cases (distribute g target ss)) [
  | inl failed ↦ cc (rw (failed, distribute_all) at e)
  | inr (r, sized) ↦
      let (k1, owed) = distribute-Kept g target ss a sized in
      let (fits, same, before, after) =
        distribute_all-Kept n (suc g) target r.1 ts k1.1 (rw (sized, distribute_all) at e) in
      (
        fits,
        same ∙ chunks_of-Keeps g ss r.1 k1.0,
        (λ k h. before k (omega arith) ∙ group_payout-Keeps g k ss r.1 (omega arith) k1.0),
        (λ k h h'. elim (ℕ_discrete k g) [
          | yes q ↦ rw (before k (omega arith), q) owed
          | no ne ↦ after k (omega arith) (omega arith)
        ]),
      )
]

chunks_of-empty : (cs : List Chunk) → chunks_of (map empty_slot cs) ≡ cs
chunks_of-empty [] = refl
chunks_of-empty (c ∷ cs) = ap (◌∷◌ c) (chunks_of-empty cs)

pub Fits-empty : (cs : List Chunk) → All IsChunk cs → All Fits (map empty_slot cs)
Fits-empty [] h = tt
Fits-empty (c ∷ cs) h = (
  record { chunk_ok = h.0; within = omega arith; whole = zero-IsMultiple c.increment },
  Fits-empty cs h.1,
)

-- A plan inside the depth and the budget: on the given chunks, each stake whole increments within
-- its chunk's capacity, and no more staked than the budget.
pub record IsPlan (cs : Chunks) (plan : List Slot) : Type 0 where
  pub fits : All Fits plan
  pub same : chunks_of plan ≡ cs.chunks
  pub funded : total_of plan ≤ cs.budget

-- A plan that `feasible` returns is inside the depth and the budget, and pays every outcome at
-- least the target.
pub feasible-IsPlan :
    (cs : Chunks) (target : ℕ) (plan : List Slot)
    → All IsChunk cs.chunks
    → feasible cs target ≡ some plan
    → IsPlan cs plan × ((g : ℕ) → g < cs.n_groups → target ≤ group_payout g plan)
unfolding feasible
feasible-IsPlan cs target plan h e =
    elim (Option-cases (distribute_all cs.n_groups 0 target (map empty_slot cs.chunks))) [
      | inl failed ↦ cc (rw (failed, feasible) at e)
      | inr (ss, sized) ↦
          let e' : (if ltb cs.budget (total_of ss) then none else some ss) ≡ some plan =
            rw (sized, feasible) at e in
          let (fits, same, before, after) =
            distribute_all-Kept cs.n_groups 0 target (map empty_slot cs.chunks) ss
              (Fits-empty cs.chunks h) sized in
          elim (Bool-cases (ltb cs.budget (total_of ss))) [
            | inl over ↦ cc (rw over at e')
            | inr under ↦
                let e'' : some ss ≡ some plan = rw under at e' in
                let q : ss ≡ plan = cc in
                rw (← q) (
                  record {
                    fits = fits;
                    same = same ∙ chunks_of-empty cs.chunks;
                    funded = ltb-false _ _ under;
                  },
                  (λ g lt. after g (omega arith) (omega arith)),
                )
          ]
    ]
