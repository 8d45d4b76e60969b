-- ===== src/Core/Fill.antt =====
-- crates/arbkit-core/src/fill.rs: how much of a resting size is counted on at fill time.
-- The intermediate product is a u128 in the source, and exact here.
use arbkit.Prelude.{
  ℕ, zero, suc, ap, ◌+◌, ◌-◌, ◌*◌, ◌/◌, ◌≤◌, ◌≡◌, refl, List, [], ◌∷◌, ◌++◌, map, length, take,
  replicate, min, arith, if◌then◌else◌, length-replicate, length-append, length-take,
}
use native.Mathlib.Nat.{mul-le-mul_left, zero-mul}
use arbkit.Prelude.Division.{div_lt, div_mono}
use arbkit.Prelude.Int.{ℤ, pos, negsuc, pos_part, leb_ℤ, ◌≤ℤ◌}
use arbkit.Core.Fee.{bps_one}
use arbkit.Core.Book.{Level, max_levels, blank_level}

pub record DepthDiscount : Type 0 where
  pub survival_bps : ℕ

abbrev pub no_discount : DepthDiscount
no_discount = record { survival_bps = 10_000 }

abbrev pub total_discount : DepthDiscount
total_discount = record { survival_bps = 0 }

unfoldable pub discounted : DepthDiscount → ℤ → ℤ
discounted d raw_depth =
    if leb_ℤ raw_depth (pos 0)
    then pos 0
    else pos (pos_part raw_depth * min d.survival_bps bps_one / bps_one)

unfoldable pub discount_level : DepthDiscount → Level → Level
unfolding discounted
discount_level d l = record l { size = discounted d l.size }

-- The fixed array of eight levels, and how many of them are filled in.
unfoldable pub discounted_levels : DepthDiscount → List Level → List Level × ℕ
unfolding discount_level
discounted_levels d levels =
    let n = min (length levels) max_levels in
    (map (discount_level d) (take n levels) ++ replicate (max_levels - n) blank_level, n)

share_le : (n bps : ℕ) → n * min bps bps_one / bps_one ≤ n
share_le n bps = omega (
  arith,
  div_lt (n * min bps bps_one) bps_one (n + 1) (omega arith)
      (omega (arith, mul-le-mul_left {m = min bps bps_one} {n = bps_one} n (omega arith))),
)

pub discounted-pos :
    (d : DepthDiscount) (n : ℕ)
    → discounted d (pos n) ≡ pos (n * min d.survival_bps bps_one / bps_one)
unfolding discounted
discounted-pos d zero = ap pos (simp zero-mul (omega arith))
discounted-pos d (suc n) = ground arith

-- A discount never reports a negative depth, nor more than was quoted when anything was; survival
-- of the whole changes nothing, and survival of nothing leaves nothing.
pub discounted_bounds :
    (d : DepthDiscount) (raw : ℤ)
    → (pos 0 ≤ℤ discounted d raw)
      × (pos 0 ≤ℤ raw → discounted d raw ≤ℤ raw)
      × (bps_one ≤ d.survival_bps → pos 0 ≤ℤ raw → discounted d raw ≡ raw)
      × (d.survival_bps ≡ 0 → discounted d raw ≡ pos 0)
discounted_bounds d (pos n) = rw (discounted-pos d n) (
  omega arith,
  (λ h. omega (arith, share_le n d.survival_bps)),
  (λ full h.
      let e : min d.survival_bps bps_one ≡ bps_one = omega arith in ap pos (rw e (omega arith))),
  (λ nothing. let e : min d.survival_bps bps_one ≡ 0 = omega arith in ap pos (rw e (omega arith))),
)
discounted_bounds d (negsuc n) = unfold discounted in ground arith

-- The more survives, the more is counted on.
pub discounted-mono :
    (d e : DepthDiscount) (raw : ℤ)
    → d.survival_bps ≤ e.survival_bps
    → discounted d raw ≤ℤ discounted e raw
discounted-mono d e (pos n) h =
    rw (discounted-pos d n, discounted-pos e n)
      (omega (
        arith,
        div_mono (n * min d.survival_bps bps_one) (n * min e.survival_bps bps_one) bps_one
            (omega arith)
            (mul-le-mul_left {m = min d.survival_bps bps_one} {n = min e.survival_bps bps_one} n
              (omega arith)),
      ))
discounted-mono d e (negsuc n) h = unfold discounted in ground arith

length-map {ℓ κ} :
    {A : Type ℓ} {B : Type κ} (f : A → B) (xs : List A) → length (map f xs) ≡ length xs
length-map f [] = refl
length-map f (x ∷ xs) = omega (arith, length-map f xs)

-- The discounted array always has eight entries.
pub length-discounted_levels :
    (d : DepthDiscount) (ls : List Level) → length (discounted_levels d ls).0 ≡ max_levels
unfolding discounted_levels
length-discounted_levels d ls =
    let n = min (length ls) max_levels in
    omega (
      arith,
      length-append (map (discount_level d) (take n ls)) (replicate (max_levels - n) blank_level),
      length-map (discount_level d) (take n ls),
      length-take n ls,
      length-replicate (max_levels - n) blank_level,
    )
