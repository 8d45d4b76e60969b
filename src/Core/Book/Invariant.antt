-- ===== src/Core/Book/Invariant.antt =====
-- The invariant of an `OutcomeBook` and its readers (crates/arbkit-core/src/book.rs).
use mathlib.Core.List.{Perm}
use arbkit.Prelude.{
  ℕ, zero, suc, ◌+◌, ◌%◌, ◌^◌, not, ◌||◌, ◌==◌, subst, ◌≤◌, ◌≡◌, ◌≢◌, refl, true, false, some, List,
  [], ◌∷◌, length, take, drop, get_elem?, min, arith, leb, leb-false, Bool-cases, inl, inr,
  if◌then◌else◌, length-take, length-drop, length-append, take-append,
}
use arbkit.Prelude.Int.{ℤ, pos, ◌+ℤ◌, int_laws}
use arbkit.Core.Price.{Prob}
use arbkit.Core.Book.{
  Level, OutcomeBook, max_levels, new, sort_levels, apply_snapshot, accept_seq, mark_stale, best,
  live_levels, depth_of, depth_to,
}
use arbkit.Core.Book.Sort.{NoneBelow, IsSorted, sort-IsSorted, sort-perm, length-sort}

-- The array keeps its size, the live part fits and is in order, and a stale book has none.
pub record IsValid (b : OutcomeBook) : Type 0 where
  pub full : length b.levels ≡ max_levels
  pub fits : b.len ≤ max_levels
  pub ordered : IsSorted (take b.len b.levels)
  pub silent : b.stale ≡ true → b.len ≡ 0

pub new-IsValid : IsValid new
unfolding new
new-IsValid = record { full = refl; fits = omega arith; ordered = tt; silent = λ e. refl }

snapshot_live :
    (ls : List Level) (seq : ℕ) (b : OutcomeBook)
    → take (min (length ls) max_levels) (apply_snapshot ls seq b).levels
      ≡ sort_levels (take (min (length ls) max_levels) ls)
unfolding apply_snapshot
snapshot_live ls seq b =
    let n = min (length ls) max_levels in
    take-append n (sort_levels (take n ls)) (drop n b.levels)
      (omega (arith, length-sort (take n ls), length-take n ls))

-- A snapshot keeps the invariant: the array keeps its size and the live levels come out in order.
pub snapshot-IsValid :
    (ls : List Level) (seq : ℕ) (b : OutcomeBook) → IsValid b → IsValid (apply_snapshot ls seq b)
unfolding apply_snapshot
snapshot-IsValid ls seq b v =
    let n = min (length ls) max_levels in
    record {
      full = omega (
        arith,
        length-append (sort_levels (take n ls)) (drop n b.levels),
        length-sort (take n ls),
        length-take n ls,
        length-drop n b.levels,
        v.full,
      );
      fits = omega arith;
      ordered = rw (snapshot_live ls seq b) (sort-IsSorted (take n ls));
      silent = λ e. cc;
    }

pub accept_seq-IsValid : (seq : ℕ) (b : OutcomeBook) → IsValid b → IsValid (accept_seq seq b).0
unfolding accept_seq
accept_seq-IsValid seq b v = elim (Bool-cases (b.stale || not (seq == (b.last_seq + 1) % 2 ^ 64))) [
  | inl e ↦ rw e (record { full = v.full; fits = omega arith; ordered = tt; silent = λ q. refl })
  | inr e ↦ rw e (record { full = v.full; fits = v.fits; ordered = v.ordered; silent = v.silent })
]

pub mark_stale-IsValid : (b : OutcomeBook) → IsValid b → IsValid (mark_stale b)
unfolding mark_stale
mark_stale-IsValid b v = record {
  full = v.full;
  fits = omega arith;
  ordered = tt;
  silent = λ e. refl;
}

-- After a snapshot the readable levels are the first eight given, reordered.
pub live_levels-snapshot-perm :
    (ls : List Level) (seq : ℕ) (b : OutcomeBook)
    → Perm (live_levels (apply_snapshot ls seq b)) (take (min (length ls) max_levels) ls)
unfolding live_levels apply_snapshot
live_levels-snapshot-perm ls seq b =
    rw (snapshot_live ls seq b) (sort-perm (take (min (length ls) max_levels) ls))

first_is_best :
    (n : ℕ) (xs : List Level) (l : Level)
    → IsSorted (take n xs)
    → n ≢ 0
    → get_elem? xs 0 ≡ some l
    → NoneBelow l.price.ppm (take n xs)
first_is_best zero xs l s h e = absurd (h refl)
first_is_best (suc n) [] l s h e = tt
first_is_best (suc n) (x ∷ xs) l s h e =
    let q : x ≡ l = cc in subst (λ y. NoneBelow y.price.ppm (x ∷ take n xs)) q (omega arith, s.0)

-- What `best` reports is at least as good a price as every level of the book.
pub best-NoneBelow :
    (b : OutcomeBook) (l : Level)
    → IsValid b
    → best b ≡ some l
    → NoneBelow l.price.ppm (live_levels b)
unfolding best live_levels
best-NoneBelow b l v e = elim (Bool-cases b.stale) [
  | inl s ↦ rw s tt
  | inr s ↦
      rw s (first_is_best b.len b.levels l v.ordered (λ z. absurd (empty_none s z)) (ground arith))
]
  where
    empty_none : b.stale ≡ false → b.len ≡ 0 → ⊥
    empty_none s z = ground arith

-- The sizes of all the levels within the limit, wherever they stand.
abbrev pub depth_within : Prob → List Level → ℤ
depth_within limit [] = pos 0
depth_within limit (x ∷ xs) =
    (if leb x.price.ppm limit.ppm then x.size else pos 0) +ℤ depth_within limit xs

beyond :
    (limit : Prob) (p : ℕ) (xs : List Level)
    → suc limit.ppm ≤ p
    → NoneBelow p xs
    → depth_within limit xs ≡ pos 0
beyond limit p [] h n = refl
beyond limit p (x ∷ xs) h n = grind (int_laws, beyond limit p xs h n.1)

depth_of-sorted :
    (limit : Prob) (xs : List Level) → IsSorted xs → depth_of limit xs ≡ depth_within limit xs
unfolding depth_of
depth_of-sorted limit [] s = refl
depth_of-sorted limit (x ∷ xs) s = elim (Bool-cases (leb x.price.ppm limit.ppm)) [
  | inl e ↦ rw (e, depth_of-sorted limit xs s.1)
  | inr e ↦ rw (e, beyond limit x.price.ppm xs (leb-false _ _ e) s.0) zero_sum
]
  where
    zero_sum : pos 0 ≡ pos 0 +ℤ pos 0
    zero_sum = omega int_laws

-- The depth to a limit counts every readable level within the limit and nothing else, although it
-- stops reading at the first level beyond it.
pub depth_to-eq-depth_within :
    (limit : Prob) (b : OutcomeBook)
    → IsValid b
    → depth_to limit b ≡ depth_within limit (live_levels b)
unfolding depth_to live_levels
depth_to-eq-depth_within limit b v = elim (Bool-cases b.stale) [
  | inl s ↦ rw s refl
  | inr s ↦ rw s (depth_of-sorted limit (take b.len b.levels) v.ordered)
]
