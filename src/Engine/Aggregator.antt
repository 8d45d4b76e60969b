-- ===== src/Engine/Aggregator.antt =====
-- crates/arbkit-engine/src/aggregator.rs: the chunks of one market, chosen across its venues and put
-- to the detector. The fixed arrays are lists of the entries in use. `plan` holds, for each chunk, its
-- index among the candidates and the candidate; `chosen[i]` is that `i` stands in `plan`. An index of
-- an allocation past the plan, where the source would stop, reads `blank_pick`.
pub mod Found
pub mod Chosen
pub mod Shopped
pub mod Legs
pub mod Sound
pub mod Evaluated
use arbkit.Prelude.{
  ℕ, zero, suc, ◌-◌, ◌^◌, Bool, true, false, not, ◌||◌, Option, none, some, List, [], ◌∷◌, ◌++◌,
  map, Checked, accepted, rejected, length, take, get_or, replicate, ltb, ◌==◌, if◌then◌else◌,
}
use arbkit.Prelude.Int.{ℤ, pos, leb_ℤ, ltb_ℤ}
use arbkit.Core.Error.{ok, err}
use arbkit.Core.Price.{Prob, certain}
use arbkit.Core.Fee.{free, effective}
use arbkit.Core.Book.{Level, OutcomeBook, live_levels, blank_level}
use arbkit.Core.Fill.{discounted}
use arbkit.Core.Arb.{BookLeg, Leg, Signal, Allocation, allocations, max_chunks}
use arbkit.Core.Arb.Detect.{detect_book}
use arbkit.Engine.Slab.{
  EngineError, core, EngineSlab, MarketConfig, get_book, get_config, max_venues,
}

pub record ChunkCandidate : Type 0 where
  pub outcome : ℕ
  pub venue : ℕ
  pub price : Prob
  pub eff_ppm : ℕ
  pub raw_size : ℤ
  pub size : ℤ

-- The levels of one book that survive the discount.
unfoldable pub level_candidates : MarketConfig → ℕ → ℕ → List Level → List ChunkCandidate
level_candidates config outcome venue [] = []
level_candidates config outcome venue (level ∷ levels) =
    let rest = level_candidates config outcome venue levels in
    let size =
      discounted (record { survival_bps = get_or config.venue_survival_bps venue 0 }) level.size in
    if leb_ℤ size (pos 0)
    then rest
    else record {
      outcome = outcome;
      venue = venue;
      price = level.price;
      eff_ppm = (effective (get_or config.venue_fees venue free) level.price).ppm;
      raw_size = level.size;
      size = size;
    }
      ∷ rest

unfoldable pub book_candidates : EngineSlab → MarketConfig → ℕ → ℕ → ℕ → List ChunkCandidate
book_candidates slab config market outcome venue = elim (get_book market outcome venue slab) [
  | none ↦ []
  | some book ↦ level_candidates config outcome venue (live_levels book)
]

-- The venues from `venue` on, `n` of them.
unfoldable pub venue_candidates : EngineSlab → MarketConfig → ℕ → ℕ → ℕ → ℕ → List ChunkCandidate
venue_candidates slab config market outcome zero venue = []
venue_candidates slab config market outcome (suc n) venue =
    book_candidates slab config market outcome venue
    ++ venue_candidates slab config market outcome n (suc venue)

-- The outcomes from `outcome` on, `n` of them.
unfoldable pub outcome_candidates : EngineSlab → MarketConfig → ℕ → ℕ → ℕ → List ChunkCandidate
outcome_candidates slab config market zero outcome = []
outcome_candidates slab config market (suc n) outcome =
    venue_candidates slab config market outcome max_venues 0
    ++ outcome_candidates slab config market n (suc outcome)

-- A candidate with its index.
abbrev pub ChunkPick : Type 0
ChunkPick = ℕ × ChunkCandidate

abbrev pub better : Option ChunkPick → ChunkCandidate → Bool
better none c = true
better (some (i, b)) c = ltb c.eff_ppm b.eff_ppm

-- The scan for the lowest price among the candidates, from index `i` on, that pass the test.
unfoldable pub scan :
    (ℕ → ChunkCandidate → Bool) → ℕ → List ChunkCandidate → Option ChunkPick → Option ChunkPick
scan test i [] best = best
scan test i (c ∷ cs) best =
    scan test (suc i) cs (if test i c then (if better best c then some (i, c) else best) else best)

unfoldable pub is_chosen : ℕ → List ChunkPick → Bool
is_chosen i [] = false
is_chosen i (p ∷ ps) = (p.0 == i) || is_chosen i ps

-- Fair coverage: the best candidate of each outcome from `outcome` on, `n` of them.
unfoldable pub fair_plan : ℕ → ℕ → List ChunkCandidate → Option (List ChunkPick)
fair_plan zero outcome candidates = some []
fair_plan (suc n) outcome candidates = elim (scan (λ i c. c.outcome == outcome) 0 candidates none) [
  | none ↦ none
  | some p ↦ elim (fair_plan n (suc outcome) candidates) [ none ↦ none | some ps ↦ some (p ∷ ps) ]
]

-- Line shopping: the best candidates that are left, while there are slots.
unfoldable pub shop : ℕ → List ChunkCandidate → List ChunkPick → List ChunkPick
shop zero candidates plan = plan
shop (suc slots) candidates plan = elim (scan (λ i c. not (is_chosen i plan)) 0 candidates none) [
  | none ↦ plan
  | some p ↦ shop slots candidates (plan ++ (p ∷ []))
]

unfoldable pub book_leg_from_candidate : MarketConfig → ChunkCandidate → BookLeg
book_leg_from_candidate config c = record {
  venue = c.venue;
  outcome = c.outcome;
  fee = get_or config.venue_fees c.venue free;
  increment = get_or config.venue_increments c.venue (pos 1);
  levels = record { price = c.price; size = c.size } ∷ replicate 7 blank_level;
  n_levels = 1;
}

abbrev pub legs_of : MarketConfig → List ChunkPick → List BookLeg
legs_of config [] = []
legs_of config (p ∷ ps) = book_leg_from_candidate config p.1 ∷ legs_of config ps

unfoldable pub prefer_single : Option Signal → Option Signal → Bool
prefer_single (some s) (some t) = ltb_ℤ s.worst_case_profit t.worst_case_profit
prefer_single none (some t) = true
prefer_single s none = false

-- `Option::or`
abbrev pub or_else {ℓ} : {A : Type ℓ} → Option A → Option A → Option A
or_else (some a) o = some a
or_else none o = o

unfoldable pub keep_better : Option Signal → Option Signal → Option Signal
unfolding prefer_single
keep_better shopped single =
    if prefer_single shopped single then or_else single shopped else or_else shopped single

abbrev pub blank_candidate : ChunkCandidate
blank_candidate = record {
  outcome = 0;
  venue = 0;
  price = certain;
  eff_ppm = 2 ^ 32 - 1;
  raw_size = pos 0;
  size = pos 0;
}

abbrev pub blank_pick : ChunkPick
blank_pick = (0, blank_candidate)

-- The entry of the execution plan for an allocation.
unfoldable pub execution_leg : MarketConfig → List ChunkPick → Allocation → Leg
execution_leg config plan a =
    let c = (get_or plan a.leg blank_pick).1 in
    record {
      venue = c.venue;
      outcome = c.outcome;
      quoted = c.price;
      fee = get_or config.venue_fees c.venue free;
      capacity = c.raw_size;
      increment = get_or config.venue_increments c.venue (pos 1);
    }

abbrev pub execution_plan : MarketConfig → List ChunkPick → List Allocation → List Leg
execution_plan config plan [] = []
execution_plan config plan (a ∷ as_) = execution_leg config plan a ∷ execution_plan config plan as_

-- The part of `evaluate_market` after the plan is chosen.
unfoldable pub evaluate_plan :
    MarketConfig → List ChunkPick → Checked EngineError (Option (Signal × List Leg))
unfolding keep_better
evaluate_plan config plan = elim (detect_book (legs_of config plan) config.budget) [
  | err e ↦ rejected (core e)
  | ok shopped ↦
      elim (detect_book (legs_of config (take config.outcome_count plan)) config.budget) [
        | err e ↦ rejected (core e)
        | ok single ↦ elim (keep_better shopped single) [
          | none ↦ accepted none
          | some signal ↦ accepted (some (signal, execution_plan config plan (allocations signal)))
        ]
      ]
]

unfoldable pub evaluate_active :
    EngineSlab → ℕ → MarketConfig → Checked EngineError (Option (Signal × List Leg))
evaluate_active slab market config =
    let candidates = outcome_candidates slab config market config.outcome_count 0 in
    elim (fair_plan config.outcome_count 0 candidates) [
      | none ↦ accepted none
      | some fair ↦ evaluate_plan config (shop (max_chunks - length fair) candidates fair)
    ]

unfoldable pub evaluate_market : EngineSlab → ℕ → Checked EngineError (Option (Signal × List Leg))
evaluate_market slab market = elim (get_config market slab) [
  | none ↦ accepted none
  | some config ↦ if config.active then evaluate_active slab market config else accepted none
]
