-- ===== src/Core/Arb/Quotes.antt =====
-- The signal that `detect` returns for single quotes (Core/Arb/Detect.antt,
-- crates/arbkit-core/src/arb.rs).
use arbkit.Prelude.{
  ℕ, zero, suc, ◌+◌, ◌≤◌, ◌<◌, ◌≡◌, refl, ap, ◌||◌, some, List, [], ◌∷◌, map, length, get_or,
  get_elem?, All, All-replicate, arith, ltb, ◌==◌, Bool-cases, inl, inr,
}
use arbkit.Prelude.Int.{ℤ, pos, ◌+ℤ◌, ◌≤ℤ◌, ◌<ℤ◌, i64_max}
use arbkit.Core.Error.{ok}
use arbkit.Core.Price.{IsProb}
use arbkit.Core.Book.{blank_level}
use arbkit.Core.Arb.{Leg, BookLeg, Signal, allocations, max_legs}
use arbkit.Core.Arb.Detect.{detect, book_leg, count_from}
use arbkit.Core.Arb.Report.{staked, paid_if}
use arbkit.Core.Arb.Backed.{IsLeg}
use arbkit.Core.Arb.Groups.{get_elem?-lt}
use arbkit.Core.Arb.Planned.{Planned, plan-Planned}
use arbkit.Core.Arb.Guarantee.{Planned-Reported, Planned-profit, Planned-covers}

book_leg-IsLeg : (leg : Leg) → IsProb leg.quoted → IsLeg (book_leg leg)
unfolding book_leg
book_leg-IsLeg leg h =
    (h, All-replicate (λ level. IsProb level.price) 7 blank_level (omega arith, omega arith))

map-book_leg-IsLeg :
    (legs : List Leg) → All (λ leg. IsProb leg.quoted) legs → All IsLeg (map book_leg legs)
map-book_leg-IsLeg [] h = tt
map-book_leg-IsLeg (leg ∷ legs) h = (book_leg-IsLeg leg h.0, map-book_leg-IsLeg legs h.1)

get_or-count_from : (k n i : ℕ) → i < n → get_or (count_from k n) i 0 ≡ k + i
get_or-count_from k zero i h = absurd (omega arith)
get_or-count_from k (suc n) zero h = omega arith
get_or-count_from k (suc n) (suc i) h = omega (arith, get_or-count_from (suc k) n i (omega arith))

length-map-book_leg : (legs : List Leg) → length (map book_leg legs) ≡ length legs
length-map-book_leg [] = refl
length-map-book_leg (leg ∷ legs) = ap suc (length-map-book_leg legs)

module _ (legs : List Leg) (budget : ℤ) (s : Signal) where
  detect-Planned :
      detect legs budget ≡ ok (some s)
      → (1 ≤ length legs)
        × Planned (map book_leg legs) (count_from 0 (length legs)) (length legs) budget s
  unfolding detect
  detect-Planned e = elim (Bool-cases (ltb (length legs) 2 || ltb max_legs (length legs))) [
    | inl out ↦ cc (rw (out, detect) at e)
    | inr in_range ↦
        let several : 1 ≤ length legs = ground arith in
        (
          several,
          plan-Planned (map book_leg legs) (count_from 0 (length legs)) (length legs) budget s
              several (rw (in_range, detect) at e),
        )
  ]

  -- A signal that `detect` returns for quotes with valid prices and a 64-bit budget gains whichever
  -- quote wins: its worst-case profit is positive, its total stake is the sum of the stakes and
  -- within the budget, and the allocations on any one quote return at least the total stake and
  -- the profit.
  pub detect_gains :
      All (λ leg. IsProb leg.quoted) legs
      → budget ≤ℤ pos i64_max
      → detect legs budget ≡ ok (some s)
      → (pos 0 <ℤ s.worst_case_profit)
        × (staked (allocations s) ≡ s.total_stake)
        × (pos s.total_stake ≤ℤ budget)
        × ((i : ℕ)
            → i < length legs
            → pos s.total_stake +ℤ s.worst_case_profit
              ≤ℤ pos (paid_if (λ k. k == i) (allocations s)))
  detect_gains valid small e =
      let (several, p) = detect-Planned e in
      let books = map book_leg legs in
      let groups = count_from 0 (length legs) in
      let r =
        Planned-Reported books groups (length legs) budget s (map-book_leg-IsLeg legs valid) several
          small p in
      let (gains, sum, funded) = Planned-profit books groups (length legs) budget s p r in
      (
        gains,
        sum,
        funded,
        (λ i lt. Planned-covers books groups (length legs) budget s p r (λ k. k == i) i lt (own i)),
      )
    where
      own :
          (i k : ℕ) (leg : BookLeg)
          → get_elem? (map book_leg legs) k ≡ some leg
          → (k == i) ≡ (get_or (count_from 0 (length legs)) k 0 == i)
      own i k leg at =
          let lt = get_elem?-lt (map book_leg legs) k leg at in
          let q : get_or (count_from 0 (length legs)) k 0 ≡ k = omega (
            arith,
            get_or-count_from 0 (length legs) k (omega (arith, lt, length-map-book_leg legs)),
          ) in
          rw q refl
