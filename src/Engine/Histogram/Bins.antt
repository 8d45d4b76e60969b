-- ===== src/Engine/Histogram/Bins.antt =====
-- The bins of the histogram (crates/arbkit-engine/src/histogram.rs).
use arbkit.Prelude.{ℕ, ◌+◌, ◌-◌, ◌*◌, ◌≤◌, ◌<◌, ◌≡◌, ◌⊎◌, arith, ltb, Bool-cases, inl, inr}
use arbkit.Engine.Histogram.{num_bins, latency_to_bin, bin_to_latency}

close :
    (l : ℕ)
    → l < 100_000_000
    → (l < bin_to_latency (latency_to_bin l) + 10)
      ⊎ ((l - bin_to_latency (latency_to_bin l)) * 100 < l)
unfolding latency_to_bin bin_to_latency
close l h = elim (Bool-cases (ltb l 10_000)) [
  | inl short ↦ inl (ground arith)
  | inr long ↦ inr (ground arith)
]

-- Every latency has a bin in the array. Below a tenth of a second the bin's lower edge is at most the
-- latency, and less than ten nanoseconds or a hundredth of the latency below it; from there on the
-- last bin stands for all. The lower edge of a bin lies in that bin.
pub latency_to_bin_bounds :
    (l : ℕ)
    → (latency_to_bin l < num_bins)
      × (bin_to_latency (latency_to_bin l) ≤ l)
      × (l < 100_000_000
          → (l < bin_to_latency (latency_to_bin l) + 10)
            ⊎ ((l - bin_to_latency (latency_to_bin l)) * 100 < l))
      × (latency_to_bin (bin_to_latency (latency_to_bin l)) ≡ latency_to_bin l)
unfolding latency_to_bin bin_to_latency
latency_to_bin_bounds l = (ground arith, ground arith, close l, ground arith)
