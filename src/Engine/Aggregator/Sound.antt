-- ===== src/Engine/Aggregator/Sound.antt =====
-- The signal of a market against the books of the slab (crates/arbkit-engine/src/aggregator.rs).
use arbkit.Prelude.{
  ℕ, zero, suc, ◌+◌, ◌*◌, ◌/◌, ◌<◌, ◌≡◌, ◌≢◌, refl, sym, ap, ap₂, ◌∙◌, subst, some, List, [], ◌∷◌,
  take, get_elem?, get_or, All, All-get_elem?, ◌==◌, if◌then◌else◌, min,
}
use arbkit.Prelude.Division.{IsMultiple}
use arbkit.Prelude.Int.{pos, ◌+ℤ◌, ◌≤ℤ◌, ◌<ℤ◌, i64_max}
use arbkit.Core.Error.{ok}
use arbkit.Core.Price.{IsProb, ppm_one}
use arbkit.Core.Fee.{effective, free}
use arbkit.Core.Book.{Level, OutcomeBook, live_levels}
use arbkit.Core.Arb.{BookLeg, Leg, Allocation, Signal, allocations}
use arbkit.Core.Arb.Detect.{detect_book, usable_levels, effective_ppm}
use arbkit.Core.Arb.Report.{staked, paid_if}
use arbkit.Core.Arb.Guarantee.{
  IsFillable, backs, detect_book_profit, detect_book_covers, detect_book_fills,
}
use arbkit.Engine.Slab.{EngineSlab, MarketConfig, get_book}
use arbkit.Engine.Aggregator.{
  ChunkCandidate, ChunkPick, book_leg_from_candidate, legs_of, blank_pick, execution_leg,
  execution_plan,
}
use arbkit.Engine.Aggregator.Legs.{IsPriced, Quoted-IsProb, legs_of-IsLeg, legs_of-get, get-legs_of}
use arbkit.Engine.Aggregator.Found.{Quoted, surviving}

-- What the allocations return, if this outcome settles, by the legs of the execution plan.
unfoldable pub settled : ℕ → List Leg → List Allocation → ℕ
settled outcome [] as_ = 0
settled outcome (l ∷ ls) [] = 0
settled outcome (l ∷ ls) (a ∷ as_) =
    (if l.outcome == outcome then a.payout else 0) + settled outcome ls as_

-- A leg of the execution plan with its allocation: a live level of the book of the market for that
-- outcome at that venue, quoted as it stands, with a stake that is a positive number of whole
-- increments and no more than what is left of the level after the discount, and that pays what the
-- price after fees makes of it.
pub record IsExecutable (slab : EngineSlab) (config : MarketConfig) (market : ℕ) (l : Leg)
    (a : Allocation) : Type 0 where
  pub book : OutcomeBook
  pub held : get_book market l.outcome l.venue slab ≡ some book
  pub level : Level
  pub index : ℕ
  pub live : get_elem? (live_levels book) index ≡ some level
  pub quoted : l.quoted ≡ level.price
  pub capacity : l.capacity ≡ level.size
  pub fee : l.fee ≡ get_or config.venue_fees l.venue free
  pub not_idle : a.stake ≢ 0
  pub survives : pos a.stake ≤ℤ surviving config l.venue level.size
  pub increment : ℕ
  pub stepped : l.increment ≡ pos increment
  pub whole : IsMultiple increment a.stake
  pub pays : a.payout ≡ min (a.stake * ppm_one / (effective l.fee l.quoted).ppm) i64_max

-- Two lists of one length, related entry by entry.
abbrev pub Aligned : (Leg → Allocation → Type 0) → List Leg → List Allocation → Type 0
Aligned R [] [] = Unit
Aligned R [] (b ∷ bs) = ⊥
Aligned R (a ∷ as_) [] = ⊥
Aligned R (a ∷ as_) (b ∷ bs) = R a b × Aligned R as_ bs

-- A signal of a market, with its execution plan, that can be executed and gains.
pub record IsSound (slab : EngineSlab) (config : MarketConfig) (market : ℕ) (s : Signal)
    (plan : List Leg) : Type 0 where
  pub gains : pos 0 <ℤ s.worst_case_profit
  pub summed : staked (allocations s) ≡ s.total_stake
  pub funded : pos s.total_stake ≤ℤ config.budget
  pub covered :
      (o : ℕ)
      → o < config.outcome_count
      → pos s.total_stake +ℤ s.worst_case_profit ≤ℤ pos (settled o plan (allocations s))
  pub executable : Aligned (IsExecutable slab config market) plan (allocations s)

abbrev leg_of_candidate : MarketConfig → ChunkCandidate → Leg
leg_of_candidate config c = record {
  venue = c.venue;
  outcome = c.outcome;
  quoted = c.price;
  fee = get_or config.venue_fees c.venue free;
  capacity = c.raw_size;
  increment = get_or config.venue_increments c.venue (pos 1);
}

only_level :
    (config : MarketConfig) (c : ChunkCandidate) (i : ℕ) (level : Level)
    → get_elem?
        (take
          (usable_levels (book_leg_from_candidate config c))
          (book_leg_from_candidate config c).levels)
        i
      ≡ some level
    → level ≡ record { price = c.price; size = c.size }
unfolding book_leg_from_candidate
only_level config c zero level e = cc
only_level config c (suc i) level e = cc

-- A stake that the detector can fill in the leg of a candidate is one that can be executed.
candidate-IsExecutable :
    (slab : EngineSlab) (config : MarketConfig) (market : ℕ) (legs : List BookLeg)
    (c : ChunkCandidate) (a : Allocation)
    → Quoted slab config market c
    → (f : IsFillable legs a) → f.leg ≡ book_leg_from_candidate config c
    → IsExecutable slab config market (leg_of_candidate config c) a
unfolding book_leg_from_candidate effective_ppm
candidate-IsExecutable slab config market legs c a q f e =
    let there =
      subst (λ leg. get_elem? (take (usable_levels leg) leg.levels) f.index ≡ some f.level) e
        f.listed in
    let l : f.level ≡ record { price = c.price; size = c.size } =
      only_level config c f.index f.level there in
    let size : f.level.size ≡ surviving config c.venue q.level.size =
      ap (λ x. x.size) l ∙ q.sized in
    let inc : get_or config.venue_increments c.venue (pos 1) ≡ pos f.increment =
      sym (ap (λ leg. leg.increment) e) ∙ f.stepped in
    let price : effective_ppm f.leg f.level
        ≡ (effective (get_or config.venue_fees c.venue free) c.price).ppm =
      ap (λ leg. effective_ppm leg f.level) e
      ∙ ap (λ level. effective_ppm (book_leg_from_candidate config c) level) l in
    record {
      book = q.book;
      held = q.held;
      level = q.level;
      index = q.index;
      live = q.live;
      quoted = q.priced;
      capacity = q.raw;
      fee = refl;
      not_idle = f.not_idle;
      survives = subst (λ x. pos a.stake ≤ℤ x) size f.resting;
      increment = f.increment;
      stepped = inc;
      whole = f.whole;
      pays = f.pays ∙ ap (λ x. min (a.stake * ppm_one / x) i64_max) price;
    }

module _ (slab : EngineSlab) (config : MarketConfig) (market : ℕ) (ps plan : List ChunkPick)
    (quoted : All (λ p. Quoted slab config market p.1) ps)
    (aligned : (i : ℕ) (p : ChunkPick)
      → get_elem? ps i ≡ some p
      → get_or plan i blank_pick ≡ p) where
  allocation-IsExecutable :
      (a : Allocation)
      → IsFillable (legs_of config ps) a
      → IsExecutable slab config market (execution_leg config plan a) a
  unfolding execution_leg
  allocation-IsExecutable a f =
      let (p, at, e) = get-legs_of slab config market ps a.leg f.leg f.at in
      rw (aligned a.leg p at) (
        candidate-IsExecutable slab config market (legs_of config ps) p.1 a
          (All-get_elem? (λ x. Quoted slab config market x.1) ps a.leg quoted at) f e)

  plan-IsExecutable :
      (as_ : List Allocation)
      → All (IsFillable (legs_of config ps)) as_
      → Aligned (IsExecutable slab config market) (execution_plan config plan as_) as_
  plan-IsExecutable [] h = tt
  plan-IsExecutable (a ∷ as_) (f, h) = (allocation-IsExecutable a f, plan-IsExecutable as_ h)

  backs-outcome :
      (o : ℕ) (a : Allocation)
      → IsFillable (legs_of config ps) a
      → backs (legs_of config ps) o a.leg ≡ ((execution_leg config plan a).outcome == o)
  unfolding execution_leg book_leg_from_candidate
  backs-outcome o a f =
      let (p, at, e) = get-legs_of slab config market ps a.leg f.leg f.at in
      let here : backs (legs_of config ps) o a.leg ≡ (f.leg.outcome == o) = rw (f.at, backs) refl in
      let same : f.leg.outcome ≡ (execution_leg config plan a).outcome =
        ap (λ leg. leg.outcome) e ∙ ap (λ x. x.1.outcome) (sym (aligned a.leg p at)) in
      here ∙ ap (λ x. x == o) same

  settled_paid :
      (o : ℕ) (as_ : List Allocation)
      → All (IsFillable (legs_of config ps)) as_
      → paid_if (backs (legs_of config ps) o) as_ ≡ settled o (execution_plan config plan as_) as_
  unfolding settled
  settled_paid o [] h = refl
  settled_paid o (a ∷ as_) (f, h) =
      ap₂ (λ b n. (if b then a.payout else 0) + n) (backs-outcome o a f) (settled_paid o as_ h)

  Quoted-All :
      IsPriced slab
      → (qs : List ChunkPick) → All (λ p. Quoted slab config market p.1) qs
      → All (λ p. IsProb p.1.price) qs
  Quoted-All priced [] h = tt
  Quoted-All priced (p ∷ qs) (h, hs) =
      (Quoted-IsProb slab config market p.1 priced h, Quoted-All priced qs hs)

  pub picks-IsSound :
      (s : Signal)
      → IsPriced slab
      → config.budget ≤ℤ pos i64_max
      → ((o : ℕ)
          → o < config.outcome_count
          → (i : ℕ) × (p : ChunkPick) × (get_elem? ps i ≡ some p) × (p.1.outcome ≡ o))
      → detect_book (legs_of config ps) config.budget ≡ ok (some s)
      → IsSound slab config market s (execution_plan config plan (allocations s))
  unfolding book_leg_from_candidate
  picks-IsSound s priced small covers e =
      let legs = legs_of config ps in
      let valid = legs_of-IsLeg slab config market ps (Quoted-All priced ps quoted) in
      let fills = detect_book_fills legs config.budget s valid small e in
      let (gains, summed, funded) = detect_book_profit legs config.budget s valid small e in
      record {
        gains = gains;
        summed = summed;
        funded = funded;
        covered = λ o lt.
            let (i, p, at, for_o) = covers o lt in
            let leg = book_leg_from_candidate config p.1 in
            let paid =
              detect_book_covers legs config.budget s valid small e i leg
                (legs_of-get slab config market ps i p at) in
            let same : paid_if (backs legs p.1.outcome) (allocations s)
                ≡ settled o (execution_plan config plan (allocations s)) (allocations s) =
              ap (λ x. paid_if (backs legs x) (allocations s)) for_o
              ∙ settled_paid o (allocations s) fills in
            subst (λ x. pos s.total_stake +ℤ s.worst_case_profit ≤ℤ pos x) same paid;
        executable = plan-IsExecutable (allocations s) fills;
      }
