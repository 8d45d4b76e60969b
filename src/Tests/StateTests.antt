-- ===== src/Tests/StateTests.antt =====
-- Applications of the theorems on the risk gate, the executor, the slab and the bankroll.
use arbkit.Prelude.{
  ℕ, suc, ◌-◌, ◌^◌, ◌≤◌, ◌<◌, ◌≡◌, ◌≢◌, ◌⊎◌, refl, true, false, none, some, List, [], ◌∷◌, accepted,
  rejected, All-replicate, arith, replicate,
}
use arbkit.Prelude.Int.{pos, negsuc, ◌+ℤ◌, ◌-ℤ◌, ◌≤ℤ◌, i64_max, int_laws}
use arbkit.Core.Price.{certain}
use arbkit.Core.Book.{OutcomeBook, new, blank_level}
use arbkit.Exec.Risk.{
  ExecLeg, kalshi, RiskGate, preflight, default_config, reserve_legs, neg_i64, settle,
}
use arbkit.Exec.Risk.Stop.{preflight-settle}
use arbkit.Exec.Risk.Reserve.{Outcome, preflight-Outcome}
use arbkit.Exec.Executor.{VenueAdapter, execute_reconciled}
use arbkit.Exec.Executor.Outcomes.{Ended, execute-Ended}
use arbkit.Exec.Guards.{RateLimiter, FeedCircuitBreaker}
use arbkit.Exec.Guards.Laws.{Within, count_allowed, count_allowed_lem}
use arbkit.Engine.Slab.{
  EngineSlab, MarketConfig, default_market, flat_index, get_book, set_book, register_market,
}
use arbkit.Engine.Slab.Index.{IsSlab, get_book-set_book, Registered, register_market-Registered}
use arbkit.Engine.Slab.Cooldown.{Spaced, emit_all, emit_all-Spaced}
use arbkit.Sim.Bankroll.{Bankroll, max_bankroll_venues, index, available_at, locked_at, reserve}
use arbkit.Sim.Bankroll.Conserved.{
  IsBalance, IsBankroll, Operation, reserving, committing, winning, perform_all,
  perform_all-IsBankroll,
}
use arbkit.Sim.Bankroll.Moves.{venue_total, reserve_outcome}

-- Two legs on two venues, and a gate that lets them through.
abbrev yes_leg : ExecLeg
yes_leg = record {
  venue = 0;
  instrument = kalshi [];
  limit_price = certain;
  stake_cents = pos 100;
  client_order_id = 1 ∷ [];
}

abbrev no_leg : ExecLeg
no_leg = record {
  venue = 1;
  instrument = kalshi [];
  limit_price = certain;
  stake_cents = pos 150;
  client_order_id = 2 ∷ [];
}

abbrev hedge : List ExecLeg
hedge = yes_leg ∷ no_leg ∷ []

abbrev open_gate : RiskGate
open_gate = record {
  config = record default_config { kill_switch = false };
  daily_loss_cents = pos 0;
  open_trades = 0;
  bankroll = λ v. pos 1_000;
}

abbrev fills : VenueAdapter
fills = record {
  submit = λ leg. accepted (record { order_id = []; filled_stake_cents = leg.stake_cents });
  unwind = λ order. none;
}

abbrev refuses : VenueAdapter
refuses = record { submit = λ leg. rejected []; unwind = λ order. none }

preflight-Outcome_example : Outcome 80 hedge open_gate (preflight 80 hedge open_gate)
preflight-Outcome_example = preflight-Outcome 80 hedge open_gate

passes : (preflight 80 hedge open_gate).0 ≡ none
unfolding preflight reserve_legs
passes = refl

execute-Ended_example :
    Ended 80 yes_leg no_leg fills refuses open_gate
      (execute_reconciled 80 hedge fills refuses open_gate)
execute-Ended_example = execute-Ended 80 yes_leg no_leg fills refuses open_gate

index_here : flat_index 3 2 1 5 ≡ some 77
unfolding flat_index
index_here = refl

-- A slab of two markets, the second with a cooldown of ten.
abbrev cooling : MarketConfig
cooling = record default_market { signal_cooldown_ns = 10 }

abbrev small_slab : EngineSlab
small_slab = record {
  books = replicate 64 new;
  configs = default_market ∷ cooling ∷ [];
  last_emit_ns = 0 ∷ 0 ∷ [];
  max_markets = 2;
}

small_slab-IsSlab : IsSlab small_slab
small_slab-IsSlab = record { books = refl; configs = refl; emits = refl }

abbrev written : OutcomeBook
written = record { levels = replicate 8 blank_level; len = 0; stale = false; last_seq = 7 }

abbrev written_slab : EngineSlab
written_slab = record small_slab { books = written ∷ replicate 63 new }

written_there : set_book 0 0 0 written small_slab ≡ some written_slab
unfolding set_book flat_index
written_there = refl

get_book-set_book_example :
    (get_book 0 0 0 written_slab ≡ some written)
    × (((Path ℕ 0 1 → ⊥) ⊎ (Path ℕ 0 2 → ⊥) ⊎ (Path ℕ 0 3 → ⊥))
        → get_book 1 2 3 written_slab ≡ get_book 1 2 3 small_slab)
get_book-set_book_example =
    get_book-set_book 0 0 0 1 2 3 written small_slab written_slab small_slab-IsSlab written_there

register_market-Registered_example :
    Registered 1 cooling small_slab (register_market 1 cooling small_slab)
register_market-Registered_example =
    register_market-Registered 1 cooling small_slab small_slab-IsSlab

nonzero : (n : ℕ) → suc n ≢ 0
nonzero n e = cc

emit_all-Spaced_example : Spaced 10 0 (emit_all 1 (4 ∷ 9 ∷ 14 ∷ []) small_slab)
emit_all-Spaced_example =
    emit_all-Spaced 1 (4 ∷ 9 ∷ 14 ∷ []) small_slab small_slab-IsSlab (nonzero 9)
      (nonzero 3, (nonzero 8, (nonzero 13, tt)))

-- A bankroll of one venue with a hundred dollars free and forty locked.
abbrev purse : Bankroll
purse = record {
  available = pos 10_000 ∷ replicate 31 (pos 0);
  locked = pos 4_000 ∷ replicate 31 (pos 0);
}

purse-IsBankroll : IsBankroll purse
purse-IsBankroll = record {
  full = refl;
  full_locked = refl;
  free =
      ((omega arith, omega arith), All-replicate IsBalance 31 (pos 0) (omega arith, omega arith));
  held =
      ((omega arith, omega arith), All-replicate IsBalance 31 (pos 0) (omega arith, omega arith));
}

purse-total : venue_total 0 purse ≤ℤ pos i64_max
unfolding available_at locked_at index
purse-total = omega int_laws

abbrev some_operations : List Operation
some_operations =
    reserving 0 (pos 4_000)
    ∷ committing 0 (pos 2_500) (pos 1_500)
    ∷ winning 0 (pos 2_500) (pos 3_000)
    ∷ []

perform_all-IsBankroll_example : IsBankroll (perform_all some_operations purse)
perform_all-IsBankroll_example = perform_all-IsBankroll some_operations purse purse-IsBankroll

reserve_outcome_example :
    let r = reserve 0 (pos 4_000) purse in
    (r.1 ≡ true
      → (0 < max_bankroll_venues) × ((pos 4_000 ≤ℤ pos 0) ⊎ (pos 4_000 ≤ℤ available_at 0 purse)))
    × (0 < max_bankroll_venues
        → (pos 4_000 ≤ℤ pos 0) ⊎ (pos 4_000 ≤ℤ available_at 0 purse)
        → r.1 ≡ true)
    × (r.1 ≡ false → r.0 ≡ purse)
    × ((u : ℕ) → venue_total u r.0 ≡ venue_total u purse)
reserve_outcome_example = reserve_outcome 0 (pos 4_000) purse purse-IsBankroll purse-total

-- A limiter of two calls in a hundred, with one spent.
abbrev limiter : RateLimiter
limiter = record { capacity = 2; remaining = 1; window = 100; started = 1_000 }

count_allowed_lem_example :
    (Within 100 1_000 ((1_010, 1_010) ∷ (1_020, 1_020) ∷ [])
      → count_allowed ((1_010, 1_010) ∷ (1_020, 1_020) ∷ []) limiter ≡ 1)
    × ((now again : ℕ)
        → 100 ≤ now - 1_000
        → Within 100 again ((1_010, 1_010) ∷ (1_020, 1_020) ∷ [])
        → 0 < 2
        → count_allowed ((now, again) ∷ (1_010, 1_010) ∷ (1_020, 1_020) ∷ []) limiter ≡ 2)
count_allowed_lem_example = count_allowed_lem limiter ((1_010, 1_010) ∷ (1_020, 1_020) ∷ [])

abbrev breaker : FeedCircuitBreaker
breaker = record { stale_after = 50; last_event = 1_000; tripped = false }

preflight-settle_example : (preflight 80 hedge (settle (negsuc 49_999) open_gate)).0 ≢ none
preflight-settle_example =
    preflight-settle 80 hedge open_gate (negsuc 49_999) (omega int_laws) (omega int_laws)
      (omega int_laws) (omega int_laws)

-- A loss of the least i64 is taken as a gain: the loss so far goes to the least i64 and the gate stays open.
unstopped : (settle (negsuc (2 ^ 63 - 1)) open_gate).daily_loss_cents ≡ negsuc (2 ^ 63 - 1)
unfolding settle neg_i64 ◌+ℤ◌ ◌-ℤ◌
unstopped = refl
