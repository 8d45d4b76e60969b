-- ===== src/Tests/MetricTests.antt =====
-- Applications of the theorems on the histogram.
use arbkit.Prelude.{ℕ, suc, ◌≡◌, ◌≤◌, ◌<◌, List, [], ◌∷◌, arith}
use arbkit.Engine.Histogram.{bin_to_latency, percentile}
use arbkit.Engine.Histogram.Ranks.{
  record_all, Tallies, record_all-Tallies, count_below, percentile_rank,
}

abbrev samples : List ℕ
samples = 120 ∷ 45_000 ∷ 980 ∷ 2_300_000 ∷ []

record_all-Tallies_example : Tallies samples (record_all samples)
record_all-Tallies_example = record_all-Tallies samples

percentile_rank_example :
    (bin : ℕ) × (percentile 3 (record_all samples) ≡ bin_to_latency bin)
    × (count_below bin samples < 3)
    × (3 ≤ count_below (suc bin) samples)
percentile_rank_example = percentile_rank 3 samples (omega arith) (omega arith)
