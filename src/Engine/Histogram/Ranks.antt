-- ===== src/Engine/Histogram/Ranks.antt =====
-- The counters and the percentiles of a histogram, against the latencies that it was given
-- (crates/arbkit-engine/src/histogram.rs).
use native.Mathlib.Decide.{ℕ_discrete}
use arbkit.Prelude.{
  ℕ, zero, suc, ◌+◌, ◌≤◌, ◌<◌, ◌≡◌, refl, sym, ◌∙◌, false, List, [], ◌∷◌, length, get_or, replicate,
  All, arith, ltb, leb, leb→le, leb-false, ◌==◌, Bool-cases, inl, inr, if◌then◌else◌, length-set,
  length-replicate, get_or-set_self, get_or-set_ne, max,
}
use arbkit.Engine.Histogram.{
  LatencyHistogram, num_bins, new_histogram, latency_to_bin, bin_to_latency, record_latency, reach,
  percentile,
}
use arbkit.Engine.Histogram.Bins.{latency_to_bin_bounds}

-- The histogram after the latencies, the last one first.
unfoldable pub record_all : List ℕ → LatencyHistogram
record_all [] = new_histogram
record_all (l ∷ ls) = record_latency l (record_all ls)

abbrev pub sum_of : List ℕ → ℕ
sum_of [] = 0
sum_of (l ∷ ls) = l + sum_of ls

-- How many latencies are in a bin, and in the bins below one.
abbrev pub count_in : ℕ → List ℕ → ℕ
count_in bin [] = 0
count_in bin (l ∷ ls) = (if latency_to_bin l == bin then 1 else 0) + count_in bin ls

abbrev pub count_below : ℕ → List ℕ → ℕ
count_below bin [] = 0
count_below bin (l ∷ ls) = (if ltb (latency_to_bin l) bin then 1 else 0) + count_below bin ls

pub record Tallies (ls : List ℕ) (h : LatencyHistogram) : Type 0 where
  pub full : length h.bins ≡ num_bins
  pub counted : h.count ≡ length ls
  pub summed : h.sum_ns ≡ sum_of ls
  pub binned : (bin : ℕ) → get_or h.bins bin 0 ≡ count_in bin ls
  pub between : All (λ l. (h.min_ns ≤ l) × (l ≤ h.max_ns)) ls

widen :
    (a b c d : ℕ) (ls : List ℕ)
    → c ≤ a
    → b ≤ d
    → All (λ l. (a ≤ l) × (l ≤ b)) ls
    → All (λ l. (c ≤ l) × (l ≤ d)) ls
widen a b c d [] p q h = tt
widen a b c d (l ∷ ls) p q h =
    ((omega (arith, h.0.0), omega (arith, h.0.1)), widen a b c d ls p q h.1)

blank_bins : (n bin : ℕ) → get_or {A = ℕ} (replicate n 0) bin 0 ≡ 0
blank_bins zero bin = refl
blank_bins (suc n) zero = refl
blank_bins (suc n) (suc bin) = blank_bins n bin

record_latency-Tallies :
    (l : ℕ) (ls : List ℕ) (h : LatencyHistogram)
    → Tallies ls h
    → Tallies (l ∷ ls) (record_latency l h)
unfolding record_latency
record_latency-Tallies l ls h t =
    let b = latency_to_bin l in
    let lt = (latency_to_bin_bounds l).0 in
    record {
      full = length-set h.bins b (get_or h.bins b 0 + 1) ∙ t.full;
      counted = omega (arith, t.counted);
      summed = omega (arith, t.summed);
      binned = λ bin. elim (ℕ_discrete b bin) [
        | yes same ↦ rw same (
            get_or-set_self h.bins bin (get_or h.bins bin 0 + 1) 0 (omega (arith, lt, t.full, same))
            ∙ ground (arith, t.binned bin))
        | no apart ↦
            get_or-set_ne h.bins b bin (get_or h.bins b 0 + 1) 0 apart
            ∙ ground (arith, t.binned bin, apart)
      ];
      between = (
        (ground arith, ground arith),
        widen h.min_ns h.max_ns _ _ ls (ground arith) (ground arith) t.between,
      );
    }

-- The counters of a histogram are those of the latencies it recorded: how many, their sum, how many in
-- each bin, and bounds that all of them are within.
pub record_all-Tallies : (ls : List ℕ) → Tallies ls (record_all ls)
unfolding record_all new_histogram
record_all-Tallies [] = record {
  full = length-replicate {A = ℕ} num_bins 0;
  counted = refl;
  summed = refl;
  binned = blank_bins num_bins;
  between = tt;
}
record_all-Tallies (l ∷ ls) = record_latency-Tallies l ls (record_all ls) (record_all-Tallies ls)

count_below-suc : (k : ℕ) (ls : List ℕ) → count_below (suc k) ls ≡ count_below k ls + count_in k ls
count_below-suc k [] = omega arith
count_below-suc k (l ∷ ls) = ground (arith, count_below-suc k ls)

count_below_all : (ls : List ℕ) → count_below num_bins ls ≡ length ls
count_below_all [] = refl
count_below_all (l ∷ ls) = ground (arith, count_below_all ls, (latency_to_bin_bounds l).0)

count_below_zero : (ls : List ℕ) → count_below 0 ls ≡ 0
count_below_zero [] = refl
count_below_zero (l ∷ ls) = ground (arith, count_below_zero ls)

reach_rank :
    (target bin acc : ℕ) (counts ls : List ℕ)
    → acc ≡ count_below bin ls
    → acc < target
    → target ≤ length ls
    → bin + length counts ≡ num_bins
    → ((j : ℕ) → get_or counts j 0 ≡ count_in (bin + j) ls)
    → let r = reach target bin acc counts in
      (count_below r ls < target) × (target ≤ count_below (suc r) ls)
unfolding reach
reach_rank target bin acc [] ls e lt le n each =
    let q : bin ≡ num_bins = omega arith in
    let r : count_below bin ls ≡ length ls = rw q (count_below_all ls) in absurd (omega (arith, r))
reach_rank target bin acc (c ∷ counts) ls e lt le n each =
    let q : bin + 0 ≡ bin = omega arith in
    let here : c ≡ count_in bin ls = rw q at (each 0) in
    elim (Bool-cases (leb target (acc + c))) [
      | inl done ↦
          rw (done, reach)
            (omega (arith, e), omega (arith, leb→le _ _ done, count_below-suc bin ls, here, e))
      | inr more ↦
          rw (more, reach)
            (reach_rank target (suc bin) (acc + c) counts ls
              (omega (arith, count_below-suc bin ls, here, e)) (leb-false _ _ more) le (omega arith)
              (λ j. let s : bin + suc j ≡ suc bin + j = omega arith in rw s at (each (suc j))))
    ]

-- A percentile of recorded latencies, at a target rank from one to their number, is the lower edge of
-- a bin such that fewer latencies than the target are in the bins below it, and at least as many as
-- the target in it and those below.
pub percentile_rank :
    (target : ℕ) (ls : List ℕ)
    → 1 ≤ target
    → target ≤ length ls
    → (bin : ℕ) × (percentile target (record_all ls) ≡ bin_to_latency bin)
      × (count_below bin ls < target)
      × (target ≤ count_below (suc bin) ls)
unfolding percentile
percentile_rank target ls p q =
    let h = record_all ls in
    let t = record_all-Tallies ls in
    let some_ : (h.count == 0) ≡ false = ground (arith, t.counted) in
    let top : max target 1 ≡ target = omega arith in
    let r =
      reach_rank target 0 0 h.bins ls (sym (count_below_zero ls)) (omega arith) q
        (omega (arith, t.full)) (λ j. let z : 0 + j ≡ j = omega arith in rw z (t.binned j)) in
    (reach target 0 0 h.bins, rw (some_, top) refl, r.0, r.1)
