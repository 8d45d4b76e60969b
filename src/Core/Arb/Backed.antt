-- ===== src/Core/Arb/Backed.antt =====
-- What a chunk takes from the leg and the level behind it (crates/arbkit-core/src/arb.rs).
use native.Mathlib.Nat.{zero-mul}
use arbkit.Prelude.{
  ℕ, zero, suc, ◌/◌, ◌≤◌, ◌≡◌, refl, true, none, some, List, take, get_or, get_elem?, All, arith,
  Bool-cases, inl, inr, if◌then◌else◌, All-take, All-get_elem?,
}
use arbkit.Prelude.Int.{ℤ, pos, negsuc, pos_part, leb_ℤ, ltb_ℤ, sub_ℕ, tdiv, scale}
use arbkit.Core.Price.{IsProb}
use arbkit.Core.Fee.{effective}
use arbkit.Core.Fee.Laws.{effective-IsProb}
use arbkit.Core.Book.{Level}
use arbkit.Core.Arb.{BookLeg, Chunk, round_down_to}
use arbkit.Core.Arb.Detect.{usable_levels, effective_ppm, usable_capacity, chunk_of}
use arbkit.Core.Arb.Fits.{IsChunk}

-- The levels of a leg that the detector looks at carry valid prices.
abbrev pub IsLeg : BookLeg → Type 0
IsLeg leg = All (λ level. IsProb level.price) leg.levels

-- The level of a leg that a chunk stands for.
pub record Backs (legs : List BookLeg) (group_of : List ℕ) (c : Chunk) : Type 0 where
  pub leg : BookLeg
  pub at : get_elem? legs c.leg ≡ some leg
  pub grouped : c.group ≡ get_or group_of c.leg 0
  pub level : Level
  pub index : ℕ
  pub listed : get_elem? (take (usable_levels leg) leg.levels) index ≡ some level
  pub priced : c.price ≡ effective_ppm leg level
  pub stepped : leg.increment ≡ pos c.increment
  pub sized : level.size ≡ pos c.resting
  pub one_step : 1 ≤ c.increment
  pub floored : c.capacity ≡ round_down_to c.resting c.increment

-- What `usable_capacity` lets through: a positive increment, a size that is not negative, floored.
pub record Usable (leg : BookLeg) (level : Level) (capacity : ℕ) : Type 0 where
  pub stepped : leg.increment ≡ pos (pos_part leg.increment)
  pub one_step : 1 ≤ pos_part leg.increment
  pub sized : level.size ≡ pos (pos_part level.size)
  pub floored : capacity ≡ round_down_to (pos_part level.size) (pos_part leg.increment)

-- A size below zero floors to no positive capacity.
below_one_step : (q i : ℕ) → 1 ≤ i → ltb_ℤ (scale (sub_ℕ 0 q) i) (pos i) ≡ true
below_one_step zero i h = simp zero-mul (ground arith)
below_one_step (suc q) i h = ground arith

usable_numbers :
    (inc size : ℤ) (capacity : ℕ)
    → (if leb_ℤ inc (pos 0)
        then none
        else (let c = scale (tdiv size (pos_part inc)) (pos_part inc) in
            if ltb_ℤ c inc then none else some (pos_part c)))
      ≡ some capacity
    → (inc ≡ pos (pos_part inc))
      × (1 ≤ pos_part inc)
      × (size ≡ pos (pos_part size))
      × (capacity ≡ round_down_to (pos_part size) (pos_part inc))
usable_numbers (negsuc i) size capacity e = ground arith
usable_numbers (pos i) (pos n) capacity e = ground arith
usable_numbers (pos i) (negsuc n) capacity e = elim (Bool-cases (leb_ℤ (pos i) (pos 0))) [
  | inl free_step ↦ cc (rw free_step at e)
  | inr stepped ↦ cc (rw (stepped, below_one_step (suc n / i) i (ground arith)) at e)
]

pub usable_capacity-Usable :
    (leg : BookLeg) (level : Level) (capacity : ℕ)
    → usable_capacity leg level ≡ some capacity
    → Usable leg level capacity
unfolding usable_capacity
usable_capacity-Usable leg level capacity e =
    let (a, b, c, d) = usable_numbers leg.increment level.size capacity e in
    record { stepped = a; one_step = b; sized = c; floored = d }

-- A chunk of a valid leg is a chunk that the sizing can work with.
pub Backs-IsChunk :
    (legs : List BookLeg) (group_of : List ℕ) (c : Chunk)
    → All IsLeg legs
    → Backs legs group_of c
    → IsChunk c
unfolding effective_ppm
Backs-IsChunk legs group_of c h b =
    let valid : IsLeg b.leg = All-get_elem? IsLeg legs c.leg h b.at in
    let price : IsProb b.level.price =
      All-get_elem? (λ level. IsProb level.price) _ b.index
        (All-take (λ level. IsProb level.price) (usable_levels b.leg) b.leg.levels valid)
        b.listed in
    let e : IsProb (effective b.leg.fee b.level.price) =
      effective-IsProb b.leg.fee b.level.price price in
    record {
      priced = rw (b.priced) e.0;
      certain = rw (b.priced) e.1;
      stepped = b.one_step;
      floored = b.floored;
    }

pub chunk_of-group :
    (i g : ℕ) (leg : BookLeg) (level : Level) (capacity : ℕ)
    → (chunk_of i g leg level capacity).group ≡ g
unfolding chunk_of
chunk_of-group i g leg level capacity = refl

pub chunk_of-Backs :
    (legs : List BookLeg) (group_of : List ℕ) (i l : ℕ) (leg : BookLeg) (level : Level)
    (capacity : ℕ)
    → get_elem? legs i ≡ some leg
    → get_elem? (take (usable_levels leg) leg.levels) l ≡ some level
    → usable_capacity leg level ≡ some capacity
    → Backs legs group_of (chunk_of i (get_or group_of i 0) leg level capacity)
unfolding chunk_of
chunk_of-Backs legs group_of i l leg level capacity at listed e =
    let u = usable_capacity-Usable leg level capacity e in
    record {
      leg = leg;
      at = at;
      grouped = refl;
      level = level;
      index = l;
      listed = listed;
      priced = refl;
      stepped = u.stepped;
      sized = u.sized;
      one_step = u.one_step;
      floored = u.floored;
    }
