-- ===== src/Core/Book.antt =====
-- crates/arbkit-core/src/book.rs: the book of one outcome at one venue. The array of levels is a
-- list of `max_levels` entries of which the first `len` are live. Sizes are i64, summed as
-- integers. `sort_unstable_by_key` is an insertion sort by price; the order that it leaves equal
-- prices in is not one that any theorem speaks of.
pub mod Sort
pub mod Invariant
pub mod Sequence
use arbkit.Prelude.{
  ℕ, suc, ◌+◌, ◌%◌, ◌^◌, ◌≤◌, min, Bool, true, false, not, ◌||◌, Option, none, some, List, [], ◌∷◌,
  ◌++◌, length, take, drop, get_elem?, replicate, leb, ◌==◌, if◌then◌else◌,
}
use arbkit.Prelude.Int.{ℤ, pos, ◌+ℤ◌}
use arbkit.Core.Price.{Prob, certain}

abbrev pub max_levels : ℕ
max_levels = 8

pub record Level : Type 0 where
  pub price : Prob
  pub size : ℤ

pub record OutcomeBook : Type 0 where
  pub levels : List Level
  pub len : ℕ
  pub stale : Bool
  pub last_seq : ℕ

abbrev pub blank_level : Level
blank_level = record { price = certain; size = pos 0 }

unfoldable pub new : OutcomeBook
new = record { levels = replicate max_levels blank_level; len = 0; stale = true; last_seq = 0 }

unfoldable pub insert_level : Level → List Level → List Level
insert_level x [] = x ∷ []
insert_level x (y ∷ ys) = if leb x.price.ppm y.price.ppm then x ∷ y ∷ ys else y ∷ insert_level x ys

unfoldable pub sort_levels : List Level → List Level
unfolding insert_level
sort_levels [] = []
sort_levels (x ∷ xs) = insert_level x (sort_levels xs)

unfoldable pub apply_snapshot : List Level → ℕ → OutcomeBook → OutcomeBook
unfolding sort_levels
apply_snapshot levels seq book =
    let n = min (length levels) max_levels in
    record {
      levels = sort_levels (take n levels) ++ drop n book.levels;
      len = n;
      last_seq = seq;
      stale = false;
    }

-- `last_seq + 1` is a u64 sum.
unfoldable pub accept_seq : ℕ → OutcomeBook → OutcomeBook × Bool
accept_seq seq book =
    if book.stale || not (seq == (book.last_seq + 1) % 2 ^ 64)
    then (record book { stale = true; len = 0 }, false)
    else (record book { last_seq = seq }, true)

unfoldable pub mark_stale : OutcomeBook → OutcomeBook
mark_stale book = record book { stale = true; len = 0 }

unfoldable pub best : OutcomeBook → Option Level
best book = if book.stale || (book.len == 0) then none else get_elem? book.levels 0

unfoldable pub live_levels : OutcomeBook → List Level
live_levels book = if book.stale then [] else take book.len book.levels

-- `take_while(price <= limit)` and the sum of the sizes.
unfoldable pub depth_of : Prob → List Level → ℤ
depth_of limit [] = pos 0
depth_of limit (x ∷ xs) = if leb x.price.ppm limit.ppm then x.size +ℤ depth_of limit xs else pos 0

unfoldable pub depth_to : Prob → OutcomeBook → ℤ
unfolding depth_of live_levels
depth_to limit book = depth_of limit (live_levels book)
