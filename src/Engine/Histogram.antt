-- ===== src/Engine/Histogram.antt =====
-- crates/arbkit-engine/src/histogram.rs: latencies in nanoseconds, counted in bins of three
-- significant digits. Counts are below 2 ^ 64, so that the additions are exact. The target rank of
-- a percentile is computed from a float and is an argument here.
pub mod Bins
pub mod Ranks
use arbkit.Prelude.{
  ℕ, suc, ◌+◌, ◌-◌, ◌*◌, ◌/◌, ◌^◌, Option, none, some, List, [], ◌∷◌, get_or, set, replicate, max,
  ltb, leb, ◌==◌, if◌then◌else◌,
}

abbrev pub num_bins : ℕ
num_bins = 4_601

pub record LatencyHistogram : Type 0 where
  pub bins : List ℕ
  pub count : ℕ
  pub sum_ns : ℕ
  pub min_ns : ℕ
  pub max_ns : ℕ

unfoldable pub new_histogram : LatencyHistogram
new_histogram = record {
  bins = replicate num_bins 0;
  count = 0;
  sum_ns = 0;
  min_ns = 2 ^ 64 - 1;
  max_ns = 0;
}

unfoldable pub latency_to_bin : ℕ → ℕ
latency_to_bin latency_ns =
    if ltb latency_ns 10_000
    then latency_ns / 10
    else if ltb latency_ns 100_000
    then 1_000 + (latency_ns - 10_000) / 100
    else if ltb latency_ns 1_000_000
    then 1_900 + (latency_ns - 100_000) / 1_000
    else if ltb latency_ns 10_000_000
    then 2_800 + (latency_ns - 1_000_000) / 10_000
    else if ltb latency_ns 100_000_000
    then 3_700 + (latency_ns - 10_000_000) / 100_000
    else 4_600

unfoldable pub bin_to_latency : ℕ → ℕ
bin_to_latency bin =
    if ltb bin 1_000
    then bin * 10
    else if ltb bin 1_900
    then 10_000 + (bin - 1_000) * 100
    else if ltb bin 2_800
    then 100_000 + (bin - 1_900) * 1_000
    else if ltb bin 3_700
    then 1_000_000 + (bin - 2_800) * 10_000
    else if ltb bin 4_600
    then 10_000_000 + (bin - 3_700) * 100_000
    else 100_000_000

unfoldable pub record_latency : ℕ → LatencyHistogram → LatencyHistogram
record_latency latency_ns h =
    let bin = latency_to_bin latency_ns in
    record {
      bins = set h.bins bin (get_or h.bins bin 0 + 1);
      count = h.count + 1;
      sum_ns = h.sum_ns + latency_ns;
      min_ns = if ltb latency_ns h.min_ns then latency_ns else h.min_ns;
      max_ns = if ltb h.max_ns latency_ns then latency_ns else h.max_ns;
    }

unfoldable pub lowest : LatencyHistogram → Option ℕ
lowest h = if ltb 0 h.count then some h.min_ns else none

unfoldable pub highest : LatencyHistogram → Option ℕ
highest h = if ltb 0 h.count then some h.max_ns else none

unfoldable pub mean : LatencyHistogram → Option ℕ
mean h = if ltb 0 h.count then some (h.sum_ns / h.count) else none

-- The loop of `percentile`: the first bin at which the counts reach the target.
unfoldable pub reach : ℕ → ℕ → ℕ → List ℕ → ℕ
reach target bin accumulated [] = num_bins - 1
reach target bin accumulated (count ∷ counts) =
    if leb target (accumulated + count)
    then bin
    else reach target (suc bin) (accumulated + count) counts

unfoldable pub percentile : ℕ → LatencyHistogram → ℕ
percentile target h = if h.count == 0 then 0 else bin_to_latency (reach (max target 1) 0 0 h.bins)
