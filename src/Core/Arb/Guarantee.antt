-- ===== src/Core/Arb/Guarantee.antt =====
-- The signal that `detect_book` returns (Core/Arb/Detect.antt, crates/arbkit-core/src/arb.rs).
use arbkit.Prelude.{
  ℕ, ◌*◌, ◌/◌, ◌≤◌, ◌<◌, ◌≡◌, ◌≢◌, refl, sym, subst, Bool, false, ◌||◌, none, some, List, [], ◌∷◌,
  length, take, get_or, get_elem?, All, arith, ltb, ◌==◌, Bool-cases, inl, inr, min,
}
use arbkit.Prelude.Division.{IsMultiple, div_bounds}
use arbkit.Prelude.Int.{ℤ, pos, ◌+ℤ◌, ◌≤ℤ◌, ◌<ℤ◌, i64_max, int_laws}
use arbkit.Core.Error.{ok}
use arbkit.Core.Price.{ppm_one}
use arbkit.Core.Book.{Level}
use arbkit.Core.Arb.{BookLeg, Allocation, Chunk, Slot, Signal, allocations, max_chunks, payout}
use arbkit.Core.Arb.Candidates.{best_plan}
use arbkit.Core.Arb.Detect.{usable_levels, effective_ppm, group_legs, detect_book}
use arbkit.Core.Arb.Fits.{Fits, chunks_of}
use arbkit.Core.Arb.Report.{
  staked, paid_if, allocate-All, Reported, report-Reported, Reported-total, Reported-covered,
}
use arbkit.Core.Arb.Backed.{IsLeg, Backs}
use arbkit.Core.Arb.Flatten.{All-Backs-IsChunk}
use arbkit.Core.Arb.Groups.{IsDistinct-nil, group_legs-Grouped, group_legs-same, get_elem?-lt}
use arbkit.Core.Arb.Planned.{Planned, detect_book-Planned, search_result-Ended}

-- A stake that the venue of its leg can fill as it is reported: the leg lists a level with that
-- size resting, the stake is a positive number of whole increments, and the payout is the stake
-- over the level's effective price, floored and held below 2 ^ 63.
pub record IsFillable (legs : List BookLeg) (a : Allocation) : Type 0 where
  pub leg : BookLeg
  pub at : get_elem? legs a.leg ≡ some leg
  pub level : Level
  pub index : ℕ
  pub listed : get_elem? (take (usable_levels leg) leg.levels) index ≡ some level
  pub not_idle : a.stake ≢ 0
  pub resting : pos a.stake ≤ℤ level.size
  pub increment : ℕ
  pub stepped : leg.increment ≡ pos increment
  pub whole : IsMultiple increment a.stake
  pub pays : a.payout ≡ min (a.stake * ppm_one / effective_ppm leg level) i64_max

-- Does the leg at an index back the outcome?
abbrev pub backs : List BookLeg → ℕ → ℕ → Bool
backs legs outcome i = elim (get_elem? legs i) [ none ↦ false | some leg ↦ leg.outcome == outcome ]

module _ (legs : List BookLeg) (group_of : List ℕ) (n : ℕ) (budget : ℤ) (s : Signal) where
  pub Planned-Reported :
      All IsLeg legs
      → 1 ≤ n
      → budget ≤ℤ pos i64_max
      → (p : Planned legs group_of n budget s) → Reported p.overround p.cs s
  unfolding best_plan
  Planned-Reported valid several small p =
      let h = All-Backs-IsChunk legs group_of p.cs.chunks valid p.backed in
      let small' : pos p.cs.budget ≤ℤ pos i64_max = rw (p.funded) at small in
      let e =
        search_result-Ended p.cs h (rw (p.groups) several) p.some_chunk (omega (arith, int_laws)) in
      report-Reported p.overround p.cs s e.known.best_ok p.reported

  pub Planned-profit :
      (p : Planned legs group_of n budget s)
      → Reported p.overround p.cs s
      → (pos 0 <ℤ s.worst_case_profit)
        × (staked (allocations s) ≡ s.total_stake)
        × (pos s.total_stake ≤ℤ budget)
  Planned-profit p r =
      let (sum, funded) = Reported-total p.overround p.cs s r in
      (r.gains, sum, rw (p.funded) (omega (arith, int_laws, funded)))

  -- A chunk that stands for a level, with a stake that fits, is a stake the venue fills.
  slot_fills :
      (x : Slot)
      → Fits x × Backs legs group_of x.chunk
      → x.stake ≢ 0
      → IsFillable legs
          (record { leg = x.chunk.leg; stake = x.stake; payout = payout x.chunk x.stake })
  unfolding payout
  slot_fills x (f, b) staked = record {
    leg = b.leg;
    at = b.at;
    level = b.level;
    index = b.index;
    listed = b.listed;
    not_idle = staked;
    resting = rw (b.sized) (
        omega (
          arith,
          int_laws,
          f.within,
          b.floored,
          div_bounds x.chunk.resting x.chunk.increment b.one_step,
        ));
    increment = x.chunk.increment;
    stepped = b.stepped;
    whole = f.whole;
    pays = rw (b.priced) refl;
  }

  Fits-Backs :
      (ss : List Slot)
      → All Fits ss
      → All (Backs legs group_of) (chunks_of ss)
      → All (λ x. Fits x × Backs legs group_of x.chunk) ss
  Fits-Backs [] h b = tt
  Fits-Backs (x ∷ ss) h b = ((h.0, b.0), Fits-Backs ss h.1 b.1)

  Planned-fills :
      (p : Planned legs group_of n budget s)
      → Reported p.overround p.cs s
      → All (IsFillable legs) (allocations s)
  Planned-fills p r = rw (r.allocated) (
      allocate-All (λ x. Fits x × Backs legs group_of x.chunk) (IsFillable legs) r.plan slot_fills
        (Fits-Backs r.plan r.is_plan.fits
          (subst (All (Backs legs group_of)) (sym r.is_plan.same) p.backed)))

  -- Every group is covered, where a test on legs tells it from the others.
  pub Planned-covers :
      (p : Planned legs group_of n budget s)
      → Reported p.overround p.cs s
      → (test : ℕ → Bool) → (g : ℕ) → g < n
      → ((i : ℕ) (leg : BookLeg)
          → get_elem? legs i ≡ some leg
          → test i ≡ (get_or group_of i 0 == g))
      → pos s.total_stake +ℤ s.worst_case_profit ≤ℤ pos (paid_if test (allocations s))
  Planned-covers p r test g lt tells =
      Reported-covered p.overround p.cs s test g r (rw (p.groups) lt) (each p.cs.chunks p.backed)
    where
      each :
          (cs : List Chunk)
          → All (Backs legs group_of) cs
          → All (λ c. test c.leg ≡ (c.group == g)) cs
      each [] h = tt
      each (c ∷ cs) h = (rw (h.0.grouped) (tells c.leg h.0.leg h.0.at), each cs h.1)

module _ (legs : List BookLeg) (budget : ℤ) (s : Signal) where
  several_groups : detect_book legs budget ≡ ok (some s) → 1 ≤ length (group_legs legs []).1
  unfolding detect_book
  several_groups e = elim (Bool-cases (ltb (length legs) 2 || ltb max_chunks (length legs))) [
    | inl out ↦ cc (rw (out, detect_book) at e)
    | inr in_range ↦ elim (Bool-cases (ltb (length (group_legs legs []).1) 2)) [
      | inl few ↦ cc (rw (in_range, few, detect_book) at e)
      | inr enough ↦ ground arith
    ]
  ]

  book_signal :
      All IsLeg legs
      → budget ≤ℤ pos i64_max
      → (e : detect_book legs budget ≡ ok (some s))
      → Reported
          (detect_book-Planned legs budget s e).overround
          (detect_book-Planned legs budget s e).cs
          s
  book_signal valid small e =
      Planned-Reported legs (group_legs legs []).0 (length (group_legs legs []).1) budget s valid
        (several_groups e) small (detect_book-Planned legs budget s e)

  -- A signal that `detect_book` returns for legs with valid prices and a 64-bit budget gains: its
  -- worst-case profit is positive, and its total stake is the sum of its allocations' stakes and
  -- is within the budget.
  pub detect_book_profit :
      All IsLeg legs
      → budget ≤ℤ pos i64_max
      → detect_book legs budget ≡ ok (some s)
      → (pos 0 <ℤ s.worst_case_profit)
        × (staked (allocations s) ≡ s.total_stake)
        × (pos s.total_stake ≤ℤ budget)
  detect_book_profit valid small e =
      Planned-profit legs (group_legs legs []).0 (length (group_legs legs []).1) budget s
        (detect_book-Planned legs budget s e) (book_signal valid small e)

  -- Whatever outcome settles of those that the legs back, the allocations on the legs that back
  -- it return at least the signal's total stake and its worst-case profit. The legs carry valid
  -- prices, and the budget is a 64-bit number.
  pub detect_book_covers :
      All IsLeg legs
      → budget ≤ℤ pos i64_max
      → detect_book legs budget ≡ ok (some s)
      → (i : ℕ) → (leg : BookLeg) → get_elem? legs i ≡ some leg
      → pos s.total_stake +ℤ s.worst_case_profit
        ≤ℤ pos (paid_if (backs legs leg.outcome) (allocations s))
  detect_book_covers valid small e i leg at =
      let grouped = group_legs-Grouped legs [] IsDistinct-nil in
      let g = get_or (group_legs legs []).0 i 0 in
      let hg = grouped.each i leg at in
      Planned-covers legs (group_legs legs []).0 (length (group_legs legs []).1) budget s
        (detect_book-Planned legs budget s e) (book_signal valid small e) (backs legs leg.outcome) g
        (get_elem?-lt (group_legs legs []).1 g leg.outcome hg)
        (λ k l h.
          rw (h, backs)
            (group_legs-same legs [] (group_legs legs []) k g leg.outcome l grouped h hg))

  -- Every allocation of a signal of `detect_book` can be filled as it is reported, for legs with
  -- valid prices and a 64-bit budget: its leg lists a level with that size resting, and its stake
  -- is a positive number of whole increments that pays what it says at the level's effective price.
  pub detect_book_fills :
      All IsLeg legs
      → budget ≤ℤ pos i64_max
      → detect_book legs budget ≡ ok (some s)
      → All (IsFillable legs) (allocations s)
  detect_book_fills valid small e =
      Planned-fills legs (group_legs legs []).0 (length (group_legs legs []).1) budget s
        (detect_book-Planned legs budget s e) (book_signal valid small e)
