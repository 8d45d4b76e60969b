-- ===== src/Tests/CoreTests.antt =====
-- Applications of the theorems on prices, fees, books and discounts at concrete values.
use arbkit.Prelude.{
  ℕ, ◌≡◌, ◌≢◌, ◌≤◌, refl, ap, suc, true, false, some, List, [], ◌∷◌, arith, replicate,
}
use arbkit.Prelude.Int.{pos, negsuc, neg_part, ◌≤ℤ◌}
use arbkit.Core.Error.{ok}
use arbkit.Core.Price.{Prob, IsProb, to_odds, to_prob, from_american, to_american}
use arbkit.Core.Price.Reciprocal.{to_prob-to_odds}
use arbkit.Core.Price.American.{to_american-from_american}
use arbkit.Core.Fee.{commission_bps, maker_rebate_bps, effective, bps_one}
use arbkit.Core.Fee.Laws.{TakesCut, effective_direction}
use arbkit.Core.Book.{
  Level, OutcomeBook, new, apply_snapshot, best, live_levels, depth_to, blank_level, sort_levels,
  insert_level,
}
use arbkit.Core.Book.Sort.{NoneBelow}
use arbkit.Core.Book.Invariant.{
  IsValid, new-IsValid, snapshot-IsValid, best-NoneBelow, depth_within, depth_to-eq-depth_within,
}
use arbkit.Core.Book.Sequence.{accept_all, Follows, accept_all_iff}
use arbkit.Core.Fill.{DepthDiscount, discounted, discounted_bounds}

abbrev forty : Prob
forty = record { ppm = 400_000 }

abbrev third : Prob
third = record { ppm = 333_333 }

forty-IsProb : IsProb forty
forty-IsProb = (omega arith, omega arith)

third-IsProb : IsProb third
third-IsProb = (omega arith, omega arith)

to_prob-to_odds_example : to_prob (to_odds third) ≡ third
to_prob-to_odds_example = to_prob-to_odds third third-IsProb

-- -110 is 1.909…
american_differs : negsuc 109 ≢ negsuc 99
american_differs e = let q : suc 109 ≡ suc 99 = ap neg_part e in omega arith

to_american-from_american_example :
    (p : Prob) × (from_american (negsuc 109) ≡ ok p)
    × IsProb p
    × (to_american p ≡ some (negsuc 109))
to_american-from_american_example =
    to_american-from_american (negsuc 109) (omega arith) (omega arith) american_differs

effective_direction_example :
    (TakesCut (commission_bps 200) → forty.ppm ≤ (effective (commission_bps 200) forty).ppm)
    × ((bps : ℕ)
        → commission_bps 200 ≡ maker_rebate_bps bps
        → (effective (commission_bps 200) forty).ppm ≤ forty.ppm)
effective_direction_example = effective_direction (commission_bps 200) forty forty-IsProb

abbrev two_levels : List Level
two_levels =
    record { price = forty; size = pos 500 } ∷ record { price = third; size = pos 200 } ∷ []

abbrev read_book : OutcomeBook
read_book = apply_snapshot two_levels 41 new

read_book-IsValid : IsValid read_book
read_book-IsValid = snapshot-IsValid two_levels 41 new new-IsValid

snapshot-IsValid_example : IsValid (apply_snapshot two_levels 41 new)
snapshot-IsValid_example = snapshot-IsValid two_levels 41 new new-IsValid

read_book-best : best read_book ≡ some (record { price = third; size = pos 200 })
unfolding apply_snapshot best sort_levels insert_level new
read_book-best = refl

best-NoneBelow_example : NoneBelow 333_333 (live_levels read_book)
best-NoneBelow_example =
    best-NoneBelow read_book (record { price = third; size = pos 200 }) read_book-IsValid
      read_book-best

depth_to-eq-depth_within_example :
    depth_to third read_book ≡ depth_within third (live_levels read_book)
depth_to-eq-depth_within_example = depth_to-eq-depth_within third read_book read_book-IsValid

new-stale : new.stale ≡ true
unfolding new
new-stale = refl

abbrev in_service : OutcomeBook
in_service = record { levels = replicate 8 blank_level; len = 0; stale = false; last_seq = 41 }

accept_all_iff_example :
    ((accept_all (42 ∷ 43 ∷ []) in_service).1 ≡ true → Follows 41 (42 ∷ 43 ∷ []))
    × (Follows 41 (42 ∷ 43 ∷ [])
        → ((accept_all (42 ∷ 43 ∷ []) in_service).1 ≡ true)
          × ((accept_all (42 ∷ 43 ∷ []) in_service).0.stale ≡ false))
    × ((accept_all (42 ∷ 43 ∷ []) in_service).1 ≡ false
        → (accept_all (42 ∷ 43 ∷ []) in_service).0.stale ≡ true)
accept_all_iff_example = accept_all_iff (42 ∷ 43 ∷ []) in_service refl (omega arith)

abbrev half : DepthDiscount
half = record { survival_bps = 5_000 }

discounted_bounds_example :
    (pos 0 ≤ℤ discounted half (pos 901))
    × (pos 0 ≤ℤ pos 901 → discounted half (pos 901) ≤ℤ pos 901)
    × (bps_one ≤ 5_000 → pos 0 ≤ℤ pos 901 → discounted half (pos 901) ≡ pos 901)
    × (half.survival_bps ≡ 0 → discounted half (pos 901) ≡ pos 0)
discounted_bounds_example = discounted_bounds half (pos 901)
