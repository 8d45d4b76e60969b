-- ===== src/Tests/EngineTests.antt =====
-- Tests of the engine (crates/arbkit-engine): one market whose two outcomes are quoted at 48 and 50 cents by
-- two venues, and an application of each theorem that has hypotheses.
use arbkit.Prelude.{
  ℕ, zero, suc, ◌-◌, ◌<◌, length, ◌≡◌, refl, true, false, some, none, List, [], ◌∷◌, ◌++◌, All,
  All-replicate, arith, replicate, accepted,
}
use arbkit.Prelude.Int.{pos}
use arbkit.Core.Book.{
  Level, blank_level, apply_snapshot, sort_levels, insert_level, new, live_levels,
}
use arbkit.Core.Fill.{discounted}
use arbkit.Core.Arb.Candidates.{
  plan_profit, offer, seed_plan, offer_seed, run_search, search_result, best_plan, highest_of,
  overround_of, lower_to_reach, cheapest_of, reach_of, ceiling_of, seed_slots,
}
use arbkit.Core.Arb.Sizing.{feasible, total_of, distribute, distribute_all, worst_of}
use arbkit.Core.Arb.Detect.{
  detect_book, pass_one, pass_two, plan, report, signal_of, group_legs, zero_increment, pick_legs,
  take_levels, allocate,
}
use arbkit.Engine.Aggregator.{
  evaluate_market, evaluate_active, evaluate_plan, outcome_candidates, venue_candidates,
  book_candidates, level_candidates, fair_plan, scan, shop, is_chosen, book_leg_from_candidate,
  keep_better, prefer_single, execution_leg,
}
use arbkit.Core.Fee.{effective}
use arbkit.Core.Arb.{allocations, payout, Signal, Leg}
use arbkit.Feed.Event.{timestamp_ns, market_id, FeedEvent, snapshot, IsLevel}
use arbkit.Engine.Slab.{
  MarketConfig, default_market, new_slab, register_market, get_book, set_book, flat_index,
  get_config, EngineSlab, emit_admitted, note_emit,
}
use arbkit.Engine.Loop.{
  new_engine, register, process_event, take_event, evaluate_event, apply_event, update_book,
  evaluated_market, count_event,
}
use arbkit.Engine.Loop.Emitted.{IsEmitted}
use arbkit.Engine.Loop.Books.{IsRunning}
use arbkit.Engine.Loop.Runs.{
  Input, registering, feeding, IsInput, Emission, run_inputs, run_inputs-IsEmitted,
}
use arbkit.Core.Book.{OutcomeBook}
use arbkit.Core.Price.{IsProb}
use arbkit.Core.Fee.{free}
use arbkit.Core.Arb.Detect.{blank_allocation}
use arbkit.Prelude.{All-append}
use arbkit.Engine.Aggregator.{ChunkCandidate, ChunkPick}
use arbkit.Engine.Aggregator.Legs.{IsPriced}
use arbkit.Engine.Aggregator.Sound.{IsSound}
use arbkit.Engine.Aggregator.Shopped.{HasCandidate, IsPlan, shop-IsPlan}
use arbkit.Engine.Aggregator.Evaluated.{
  Evaluated, evaluate_market-Evaluated, evaluate_market-IsSound,
}
use arbkit.Engine.Ring.{
  Ring, try_push, try_pop, new_ring, start_push, store_payload, publish, Reachable, created,
  starts_push, stores, publishes,
}
use arbkit.Engine.Ring.Queue.{IsQueue, Reachable-IsQueue}

abbrev open_market : MarketConfig
open_market = record default_market { active = true }

abbrev quote : ℕ → ℕ → Level
quote ppm size = record { price = record { ppm = ppm }; size = pos size }

abbrev first_quote : FeedEvent
first_quote = snapshot 0 0 0 1 100 (quote 480_000 120_000 ∷ replicate 7 blank_level) 1

abbrev second_quote : FeedEvent
second_quote = snapshot 1 0 1 1 200 (quote 500_000 500_000 ∷ replicate 7 blank_level) 1

abbrev arb_inputs : List Input
arb_inputs = registering 0 open_market ∷ feeding first_quote 150 ∷ feeding second_quote 250 ∷ []

levels_held : (l : Level) → IsLevel l → All IsLevel (l ∷ replicate 7 blank_level)
levels_held l h = (
  h,
  All-replicate IsLevel 7 blank_level ((omega arith, omega arith), (omega arith, omega arith)),
)

arb_inputs_held : All IsInput arb_inputs
arb_inputs_held = (
  omega arith,
  (
    (
      (omega arith, omega arith, omega arith, omega arith, omega arith),
      levels_held (quote 480_000 120_000) ((omega arith, omega arith), (omega arith, omega arith)),
      refl,
    ),
    (
      (
        (omega arith, omega arith, omega arith, omega arith, omega arith),
        levels_held (quote 500_000 500_000)
            ((omega arith, omega arith), (omega arith, omega arith)),
        refl,
      ),
      tt,
    ),
  ),
)

run_inputs-IsEmitted_example :
    All
      (λ x. IsEmitted x.event x.time x.before x.after x.signal)
      (run_inputs arb_inputs (new_engine 1)).0
    × IsRunning (run_inputs arb_inputs (new_engine 1)).1.slab
run_inputs-IsEmitted_example = run_inputs-IsEmitted 1 arb_inputs arb_inputs_held

abbrev signals : List Emission → List (ℕ × ℕ × ℕ)
signals [] = []
signals (x ∷ xs) = (x.signal.market, x.signal.signal.total_stake, x.signal.latency_ns) ∷ signals xs

emitted_once : signals (run_inputs arb_inputs (new_engine 1)).0 ≡ (0, 99_999, 50) ∷ []
unfolding run_inputs new_engine new_slab register register_market process_event take_event
    evaluate_event apply_event update_book get_book set_book flat_index apply_snapshot sort_levels
    insert_level new emit_admitted note_emit evaluated_market evaluate_market evaluate_active
    evaluate_plan get_config outcome_candidates venue_candidates book_candidates level_candidates
    live_levels discounted effective fair_plan scan shop is_chosen book_leg_from_candidate
    keep_better prefer_single execution_leg allocations count_event timestamp_ns market_id
    detect_book plan pass_one pass_two report best_plan search_result run_search offer_seed offer
    seed_plan plan_profit highest_of feasible distribute_all signal_of zero_increment pick_legs
    overround_of lower_to_reach cheapest_of take_levels reach_of payout distribute total_of
    ceiling_of seed_slots worst_of allocate group_legs
emitted_once = refl

-- A slab with the two quotes on its first market.
abbrev quoted_book : Level → OutcomeBook
quoted_book level = record {
  levels = level ∷ replicate 7 blank_level;
  len = 1;
  stale = false;
  last_seq = 1;
}

abbrev quoted_slab : EngineSlab
quoted_slab = record {
  books =
      quoted_book (quote 480_000 120_000)
      ∷ (replicate 8 new ++ (quoted_book (quote 500_000 500_000) ∷ replicate 22 new));
  configs = open_market ∷ [];
  last_emit_ns = 0 ∷ [];
  max_markets = 1;
}

abbrev pub quoted_signal : Signal
quoted_signal = record {
  slots =
      record { leg = 0; stake = 48_979; payout = 102_039 }
      ∷ record { leg = 1; stake = 51_020; payout = 102_040 }
      ∷ replicate 14 blank_allocation;
  len = 2;
  overround_ppm = 980_000;
  total_stake = 99_999;
  worst_case_profit = pos 2_040;
  profit_bps = 204;
}

abbrev pub quoted_plan : List Leg
quoted_plan =
    record {
      venue = 0;
      outcome = 0;
      quoted = record { ppm = 480_000 };
      fee = free;
      capacity = pos 120_000;
      increment = pos 1;
    }
    ∷ record {
      venue = 1;
      outcome = 1;
      quoted = record { ppm = 500_000 };
      fee = free;
      capacity = pos 500_000;
      increment = pos 1;
    }
    ∷ []

quoted_evaluated : evaluate_market quoted_slab 0 ≡ accepted (some (quoted_signal, quoted_plan))
unfolding run_inputs new_engine new_slab register register_market process_event take_event
    evaluate_event apply_event update_book get_book set_book flat_index apply_snapshot sort_levels
    insert_level new emit_admitted note_emit evaluated_market evaluate_market evaluate_active
    evaluate_plan get_config outcome_candidates venue_candidates book_candidates level_candidates
    live_levels discounted effective fair_plan scan shop is_chosen book_leg_from_candidate
    keep_better prefer_single execution_leg allocations count_event timestamp_ns market_id
    detect_book plan pass_one pass_two report best_plan search_result run_search offer_seed offer
    seed_plan plan_profit highest_of feasible distribute_all signal_of zero_increment pick_legs
    overround_of lower_to_reach cheapest_of take_levels reach_of payout distribute total_of
    ceiling_of seed_slots worst_of allocate group_legs
quoted_evaluated = refl

abbrev IsPrice : Level → Type 0
IsPrice level = IsProb level.price

blanks_priced : All IsPrice (replicate 7 blank_level)
blanks_priced = All-replicate IsPrice 7 blank_level (omega arith, omega arith)

new_priced : All IsPrice new.levels
unfolding new
new_priced = All-replicate IsPrice 8 blank_level (omega arith, omega arith)

quoted_slab-IsPriced : IsPriced quoted_slab
quoted_slab-IsPriced =
    let P : OutcomeBook → Type 0 = (λ book. All IsPrice book.levels) in
    (
      ((omega arith, omega arith), blanks_priced),
      All-append P (replicate 8 new) (quoted_book (quote 500_000 500_000) ∷ replicate 22 new)
          (All-replicate P 8 new new_priced)
          (((omega arith, omega arith), blanks_priced), All-replicate P 22 new new_priced),
    )

quoted_config : get_config 0 quoted_slab ≡ some open_market
unfolding get_config
quoted_config = refl

evaluate_market-IsSound_example : IsSound quoted_slab open_market 0 quoted_signal quoted_plan
evaluate_market-IsSound_example =
    evaluate_market-IsSound quoted_slab 0 open_market quoted_signal quoted_plan quoted_slab-IsPriced
      quoted_config (omega arith) quoted_evaluated

evaluate_market-Evaluated_example : Evaluated quoted_slab 0 quoted_signal quoted_plan
evaluate_market-Evaluated_example =
    evaluate_market-Evaluated quoted_slab 0 quoted_signal quoted_plan quoted_evaluated

-- Three candidates for two outcomes.
abbrev candidate : ℕ → ℕ → ChunkCandidate
candidate outcome ppm = record {
  outcome = outcome;
  venue = 0;
  price = record { ppm = ppm };
  eff_ppm = ppm;
  raw_size = pos 10;
  size = pos 10;
}

abbrev three_candidates : List ChunkCandidate
three_candidates = candidate 0 490_000 ∷ candidate 1 500_000 ∷ candidate 0 480_000 ∷ []

abbrev fair_picks : List ChunkPick
fair_picks = (2, candidate 0 480_000) ∷ (1, candidate 1 500_000) ∷ []

three_covered : (outcome : ℕ) → outcome < 2 → HasCandidate three_candidates outcome
three_covered zero h = (0, candidate 0 490_000, refl, refl)
three_covered (suc zero) h = (1, candidate 1 500_000, refl, refl)
three_covered (suc (suc n)) h = absurd (omega arith)

shop-IsPlan_example :
    (fair : List ChunkPick) × (fair_plan 2 0 three_candidates ≡ some fair)
    × IsPlan three_candidates 2 fair (shop (16 - length fair) three_candidates fair)
shop-IsPlan_example = shop-IsPlan 2 three_candidates three_covered

three_fair : fair_plan 2 0 three_candidates ≡ some fair_picks
unfolding fair_plan scan
three_fair = refl

three_shopped : shop 14 three_candidates fair_picks ≡ fair_picks ++ ((0, candidate 0 490_000) ∷ [])
unfolding shop scan is_chosen
three_shopped = refl

-- A ring of two slots with one item pushed.
abbrev two_slots : Ring ℕ
two_slots = new_ring 0 2

abbrev one_pushed : Ring ℕ
one_pushed = publish (store_payload 7 (start_push 7 two_slots))

abbrev just_seven : List ℕ
just_seven = 7 ∷ []

once_pushed : Reachable {A = ℕ} 0 2 one_pushed just_seven []
unfolding start_push store_payload publish new_ring
once_pushed = publishes 7 (stores 7 (starts_push 7 created refl) refl) refl

Reachable-IsQueue_example : IsQueue {A = ℕ} 2 one_pushed just_seven []
Reachable-IsQueue_example =
    Reachable-IsQueue {A = ℕ} 0 2 one_pushed just_seven [] (omega arith) once_pushed

-- A ring of one slot takes a second item before the first is popped, and then neither is popped.
abbrev one_slot_full : Ring ℕ
one_slot_full = publish (store_payload 7 (new_ring 0 1))

abbrev one_slot_again : Ring ℕ
one_slot_again = publish (store_payload 8 one_slot_full)

one_slot_pushes :
    (try_push 7 (new_ring 0 1) ≡ accepted one_slot_full)
    × (try_push 8 one_slot_full ≡ accepted one_slot_again)
unfolding try_push store_payload publish new_ring
one_slot_pushes = (refl, refl)

one_slot_pops : ((try_pop one_slot_full).0 ≡ some 7) × ((try_pop one_slot_again).0 ≡ none)
unfolding try_pop store_payload publish new_ring
one_slot_pops = (refl, refl)
