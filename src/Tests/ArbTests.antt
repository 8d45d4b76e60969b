-- ===== src/Tests/ArbTests.antt =====
-- Tests of the detector (crates/arbkit-core/src/arb.rs), on two quotes of one market, 48 cents in
-- steps of 48 and 50 cents in steps of one, and an application of each of its theorems.
use arbkit.Prelude.{
  ℕ, ◌≡◌, ◌≤◌, ◌<◌, ◌⊎◌, refl, suc, some, none, true, false, List, [], ◌∷◌, All, All-replicate,
  arith, replicate, ◌==◌,
}
use arbkit.Prelude.Int.{pos, ◌+ℤ◌, ◌≤ℤ◌, ◌<ℤ◌, int_laws}
use arbkit.Core.Error.{ok, err, zero_stake_increment}
use arbkit.Core.Price.{IsProb}
use arbkit.Core.Fee.{free}
use arbkit.Core.Book.{blank_level}
use arbkit.Core.Arb.{Leg, BookLeg, Signal, Slot, Chunks, allocations, payout}
use arbkit.Core.Arb.Sizing.{feasible, total_of, group_payout, distribute, distribute_all, worst_of}
use arbkit.Core.Arb.Candidates.{
  plan_profit, offer, seed_plan, offer_seed, run_search, search_result, best_plan, highest_of,
  overround_of, lower_to_reach, cheapest_of, reach_of, ceiling_of, seed_slots,
}
use arbkit.Core.Arb.Detect.{
  detect, detect_book, book_leg, pass_one, pass_two, plan, report, signal_of, group_legs,
  blank_allocation, zero_increment, pick_legs, take_levels, allocate,
}
use arbkit.Core.Arb.Fits.{IsChunk}
use arbkit.Core.Arb.Targets.{IsPlan, feasible-IsPlan}
use arbkit.Core.Arb.Report.{staked, paid_if}
use arbkit.Core.Arb.Backed.{IsLeg}
use arbkit.Core.Arb.Guarantee.{
  IsFillable, backs, detect_book_profit, detect_book_covers, detect_book_fills,
}
use arbkit.Core.Arb.Quotes.{detect_gains}
use arbkit.Core.Arb.Rejects.{detect_book-err}
use arbkit.Core.Arb.Refused.{IsRefused}
use arbkit.Core.Arb.Optimal.{best_plan_beats_seed, search_result_border}

abbrev two_quotes : List Leg
two_quotes =
    record {
      venue = 0;
      outcome = 0;
      quoted = record { ppm = 480_000 };
      fee = free;
      capacity = pos 120_000;
      increment = pos 48;
    }
    ∷ record {
      venue = 1;
      outcome = 1;
      quoted = record { ppm = 500_000 };
      fee = free;
      capacity = pos 500_000;
      increment = pos 1;
    }
    ∷ []

abbrev found_signal : Signal
found_signal = record {
  slots =
      record { leg = 0; stake = 48_960; payout = 102_000 }
      ∷ record { leg = 1; stake = 51_000; payout = 102_000 }
      ∷ replicate 14 blank_allocation;
  len = 2;
  overround_ppm = 980_000;
  total_stake = 99_960;
  worst_case_profit = pos 2_040;
  profit_bps = 204;
}

quotes_signal : detect two_quotes (pos 100_000) ≡ ok (some found_signal)
unfolding detect plan pass_one pass_two report best_plan search_result run_search offer_seed offer
    seed_plan plan_profit highest_of feasible distribute_all signal_of zero_increment book_leg
    pick_legs overround_of lower_to_reach cheapest_of take_levels reach_of payout distribute
    total_of ceiling_of seed_slots worst_of allocate
quotes_signal = refl

-- The same two quotes as books, and a book on the second outcome without an increment.
abbrev first_book : BookLeg
first_book = record {
  venue = 0;
  outcome = 7;
  fee = free;
  increment = pos 48;
  levels =
      record { price = record { ppm = 480_000 }; size = pos 120_000 } ∷ replicate 7 blank_level;
  n_levels = 1;
}

abbrev second_book : BookLeg
second_book = record {
  venue = 1;
  outcome = 9;
  fee = free;
  increment = pos 1;
  levels =
      record { price = record { ppm = 500_000 }; size = pos 500_000 } ∷ replicate 7 blank_level;
  n_levels = 1;
}

abbrev stepless_book : BookLeg
stepless_book = record second_book { increment = pos 0 }

abbrev books : List BookLeg
books = first_book ∷ second_book ∷ []

books_signal : detect_book books (pos 100_000) ≡ ok (some found_signal)
unfolding detect_book plan pass_one pass_two report best_plan search_result run_search offer_seed
    offer seed_plan plan_profit highest_of feasible distribute_all signal_of zero_increment
    pick_legs overround_of lower_to_reach cheapest_of take_levels reach_of payout distribute
    total_of ceiling_of seed_slots worst_of allocate group_legs
books_signal = refl

stepless_refused :
    detect_book (first_book ∷ stepless_book ∷ []) (pos 100_000) ≡ err (zero_stake_increment 1)
unfolding detect_book plan zero_increment group_legs
stepless_refused = refl

quotes_valid : All (λ leg. IsProb leg.quoted) two_quotes
quotes_valid = ((omega arith, omega arith), ((omega arith, omega arith), tt))

blanks_valid : All (λ level. IsProb level.price) (replicate 7 blank_level)
blanks_valid = All-replicate (λ level. IsProb level.price) 7 blank_level (omega arith, omega arith)

books_valid : All IsLeg books
books_valid =
    (((omega arith, omega arith), blanks_valid), (((omega arith, omega arith), blanks_valid), tt))

detect_book_profit_example :
    (pos 0 <ℤ found_signal.worst_case_profit)
    × (staked (allocations found_signal) ≡ found_signal.total_stake)
    × (pos found_signal.total_stake ≤ℤ pos 100_000)
detect_book_profit_example =
    detect_book_profit books (pos 100_000) found_signal books_valid (omega (arith, int_laws))
      books_signal

detect_book_covers_example :
    pos found_signal.total_stake +ℤ found_signal.worst_case_profit
    ≤ℤ pos (paid_if (backs books 9) (allocations found_signal))
detect_book_covers_example =
    detect_book_covers books (pos 100_000) found_signal books_valid (omega (arith, int_laws))
      books_signal 1 second_book refl

detect_book_fills_example : All (IsFillable books) (allocations found_signal)
detect_book_fills_example =
    detect_book_fills books (pos 100_000) found_signal books_valid (omega (arith, int_laws))
      books_signal

detect_gains_example :
    (pos 0 <ℤ found_signal.worst_case_profit)
    × (staked (allocations found_signal) ≡ found_signal.total_stake)
    × (pos found_signal.total_stake ≤ℤ pos 100_000)
    × ((i : ℕ)
        → i < 2
        → pos found_signal.total_stake +ℤ found_signal.worst_case_profit
          ≤ℤ pos (paid_if (λ k. k == i) (allocations found_signal)))
detect_gains_example =
    detect_gains two_quotes (pos 100_000) found_signal quotes_valid (omega (arith, int_laws))
      quotes_signal

abbrev refused : List BookLeg
refused = first_book ∷ stepless_book ∷ []

detect_book-err_example :
    (detect_book refused (pos 100_000) ≡ err (zero_stake_increment 1)
      → IsRefused refused (zero_stake_increment 1))
    × (IsRefused refused (zero_stake_increment 1)
        → detect_book refused (pos 100_000) ≡ err (zero_stake_increment 1))
detect_book-err_example = detect_book-err refused (pos 100_000) (zero_stake_increment 1)

abbrev two_chunks : Chunks
two_chunks = record {
  chunks =
      record {
        leg = 0;
        group = 0;
        price = 480_000;
        increment = 48;
        capacity = 120_000;
        resting = 120_000;
      }
      ∷ record {
        leg = 1;
        group = 1;
        price = 500_000;
        increment = 1;
        capacity = 500_000;
        resting = 500_000;
      }
      ∷ [];
  n_groups = 2;
  budget = 100_000;
}

chunks_valid : All IsChunk two_chunks.chunks
chunks_valid = (
  record { priced = omega arith; certain = omega arith; stepped = omega arith; floored = refl },
  (
    record { priced = omega arith; certain = omega arith; stepped = omega arith; floored = refl },
    tt,
  ),
)

abbrev sized : List Slot
sized =
    record {
      chunk = record {
        leg = 0;
        group = 0;
        price = 480_000;
        increment = 48;
        capacity = 120_000;
        resting = 120_000;
      };
      stake = 48_000;
      active = true;
      freeze = false;
    }
    ∷ record {
      chunk = record {
        leg = 1;
        group = 1;
        price = 500_000;
        increment = 1;
        capacity = 500_000;
        resting = 500_000;
      };
      stake = 50_000;
      active = true;
      freeze = false;
    }
    ∷ []

sized_plan : feasible two_chunks 100_000 ≡ some sized
unfolding feasible distribute_all distribute payout total_of
sized_plan = refl

feasible-IsPlan_example :
    IsPlan two_chunks sized × ((g : ℕ) → g < 2 → 100_000 ≤ group_payout g sized)
feasible-IsPlan_example = feasible-IsPlan two_chunks 100_000 sized chunks_valid sized_plan

abbrev seeded : List Slot
seeded =
    record {
      chunk = record {
        leg = 0;
        group = 0;
        price = 480_000;
        increment = 48;
        capacity = 120_000;
        resting = 120_000;
      };
      stake = 48_960;
      active = true;
      freeze = false;
    }
    ∷ record {
      chunk = record {
        leg = 1;
        group = 1;
        price = 500_000;
        increment = 1;
        capacity = 500_000;
        resting = 500_000;
      };
      stake = 51_020;
      active = true;
      freeze = false;
    }
    ∷ []

seeded_plan : seed_plan two_chunks ≡ some seeded
unfolding seed_plan overround_of ceiling_of seed_slots
seeded_plan = refl

seeded_total : 0 < total_of seeded
unfolding total_of
seeded_total = omega arith

best_plan_beats_seed_example :
    ((best_plan two_chunks).found ≡ true) × (plan_profit 2 seeded ≤ℤ (best_plan two_chunks).profit)
best_plan_beats_seed_example =
    best_plan_beats_seed two_chunks chunks_valid (omega arith) (omega arith) (omega arith) seeded
      seeded_plan seeded_total

search_result_border_example :
    ((search_result two_chunks).low ≡ (search_result two_chunks).high)
    × (((search_result two_chunks).low ≡ 0)
        ⊎ ((plan : List Slot) × (feasible two_chunks (search_result two_chunks).low ≡ some plan)))
    × (((search_result two_chunks).low ≡ highest_of two_chunks)
        ⊎ (feasible two_chunks (suc (search_result two_chunks).low) ≡ none))
search_result_border_example =
    search_result_border two_chunks chunks_valid (omega arith) (omega arith) (omega arith)
