-- ===== src/Core/Arb/Seed.antt =====
-- The closed-form plan (Core/Arb/Candidates.antt, crates/arbkit-core/src/arb.rs): it is inside the
-- depth and the budget.
use native.Mathlib.Nat.{mul-le-mul_right, le_of_mul-le-mul_right, le_trans}
use arbkit.Prelude.{
  ℕ, zero, suc, ◌*◌, ◌/◌, ◌≤◌, ◌<◌, ◌≡◌, refl, ap, some, List, [], ◌∷◌, All, arith, ◌==◌,
  Bool-cases, Option-cases, inl, inr, min,
}
use arbkit.Prelude.Division.{div_bounds, div_mono, div_le, mul-IsMultiple, zero-IsMultiple}
use arbkit.Core.Arb.{Chunk, Chunks, Slot}
use arbkit.Core.Arb.Sizing.{empty_slot, total_of}
use arbkit.Core.Arb.Candidates.{
  nothing_yet, overround_of, ceiling_of, seed_stake, seed_slots, seed_plan, offer_seed,
}
use arbkit.Core.Arb.Fits.{IsChunk, Fits, chunks_of}
use arbkit.Core.Arb.Targets.{IsPlan}
use arbkit.Core.Arb.Search.{IsBest, offer-IsBest}

-- The ceiling is at most what each of the first `n` chunks has resting.
abbrev Covered : ℕ → ℕ → ℕ → List Chunk → Type 0
Covered overround ceiling zero cs = Unit
Covered overround ceiling (suc n) [] = Unit
Covered overround ceiling (suc n) (c ∷ cs) =
    (ceiling ≤ c.resting * overround / c.price) × Covered overround ceiling n cs

ceiling_of-le :
    (overround ceiling n : ℕ) (cs : List Chunk) → ceiling_of overround ceiling n cs ≤ ceiling
unfolding ceiling_of
ceiling_of-le v c zero cs = omega arith
ceiling_of-le v c (suc n) [] = omega arith
ceiling_of-le v c (suc n) (x ∷ xs) =
    omega (arith, ceiling_of-le v (min c (x.resting * v / x.price)) n xs)

ceiling_of-Covered :
    (overround ceiling n : ℕ) (cs : List Chunk)
    → Covered overround (ceiling_of overround ceiling n cs) n cs
unfolding ceiling_of
ceiling_of-Covered v c zero cs = tt
ceiling_of-Covered v c (suc n) [] = tt
ceiling_of-Covered v c (suc n) (x ∷ xs) =
    let c' = min c (x.resting * v / x.price) in
    (omega (arith, ceiling_of-le v c' n xs), ceiling_of-Covered v c' n xs)

-- A covered chunk's closed-form stake is within its capacity.
seed_stake-le :
    (ceiling overround : ℕ) (c : Chunk)
    → 0 < overround
    → IsChunk c
    → ceiling ≤ c.resting * overround / c.price
    → seed_stake ceiling overround c ≤ c.capacity
seed_stake-le k v c pos_v h covered =
    let ideal : k * c.price / v ≤ c.resting = div_le (k * c.price) v c.resting pos_v (
      omega
        (arith, mul-le-mul_right c.price covered, div_bounds (c.resting * v) c.price h.priced)) in
    rw (h.floored) (
      mul-le-mul_right c.increment
        (div_mono (k * c.price / v) c.resting c.increment h.stepped ideal))

seed_slot-Fits :
    (ceiling overround : ℕ) (c : Chunk)
    → 0 < overround
    → IsChunk c
    → ceiling ≤ c.resting * overround / c.price
    → Fits (record (empty_slot c) { stake = seed_stake ceiling overround c })
seed_slot-Fits k v c pos_v h covered = record {
  chunk_ok = h;
  within = seed_stake-le k v c pos_v h covered;
  whole = mul-IsMultiple (k * c.price / v / c.increment) c.increment h.stepped;
}

-- What is known of the closed-form slots.
record Seeded (ceiling overround n : ℕ) (cs : List Chunk) (ss : List Slot) : Type 0 where
  fits : All Fits ss
  same : chunks_of ss ≡ cs
  shared : total_of ss * overround ≤ ceiling * overround_of n cs

Seeded-nil : (k v n : ℕ) → Seeded k v n [] []
unfolding total_of
Seeded-nil k v n = record { fits = tt; same = refl; shared = omega arith }

Seeded-idle :
    (k v : ℕ) (c : Chunk) (cs : List Chunk) (ss : List Slot)
    → IsChunk c
    → Seeded k v zero cs ss
    → Seeded k v zero (c ∷ cs) (empty_slot c ∷ ss)
unfolding total_of overround_of
Seeded-idle k v c cs ss h r = record {
  fits =
      (record { chunk_ok = h; within = omega arith; whole = zero-IsMultiple c.increment }, r.fits);
  same = ap (◌∷◌ c) r.same;
  shared = omega (arith, r.shared);
}

Seeded-staked :
    (k v n : ℕ) (c : Chunk) (cs : List Chunk) (ss : List Slot)
    → 0 < v
    → IsChunk c
    → k ≤ c.resting * v / c.price
    → Seeded k v n cs ss
    → Seeded k v (suc n) (c ∷ cs) (record (empty_slot c) { stake = seed_stake k v c } ∷ ss)
unfolding total_of overround_of
Seeded-staked k v n c cs ss p h cov r =
    let ideal = k * c.price / v in
    let low : seed_stake k v c ≤ ideal = (div_bounds ideal c.increment h.stepped).0 in
    record {
      fits = (seed_slot-Fits k v c p h cov, r.fits);
      same = ap (◌∷◌ c) r.same;
      shared = omega (arith, r.shared, mul-le-mul_right v low, div_bounds (k * c.price) v p);
    }

seed_slots-Seeded :
    (ceiling overround n : ℕ) (cs : List Chunk) (ss : List Slot)
    → 0 < overround
    → All IsChunk cs
    → Covered overround ceiling n cs
    → seed_slots ceiling overround n cs ≡ some ss
    → Seeded ceiling overround n cs ss
unfolding seed_slots
seed_slots-Seeded k v zero [] ss p h cov e = let q : [] ≡ ss = cc in rw (← q) (Seeded-nil k v zero)
seed_slots-Seeded k v (suc n) [] ss p h cov e =
    let q : [] ≡ ss = cc in rw (← q) (Seeded-nil k v (suc n))
seed_slots-Seeded k v zero (c ∷ cs) ss p h cov e = elim (Option-cases (seed_slots k v zero cs)) [
  | inl failed ↦ cc (rw (failed, seed_slots) at e)
  | inr (rest, found) ↦
      let r = seed_slots-Seeded k v zero cs rest p h.1 tt found in
      let e' : some (empty_slot c ∷ rest) ≡ some ss = rw (found, seed_slots) at e in
      let q : empty_slot c ∷ rest ≡ ss = cc in rw (← q) (Seeded-idle k v c cs rest h.0 r)
]
seed_slots-Seeded k v (suc n) (c ∷ cs) ss p h cov e = elim (Bool-cases (seed_stake k v c == 0)) [
  | inl zero_stake ↦ cc (rw (zero_stake, seed_slots) at e)
  | inr staked ↦ elim (Option-cases (seed_slots k v n cs)) [
    | inl failed ↦ cc (rw (staked, failed, seed_slots) at e)
    | inr (rest, found) ↦
        let r = seed_slots-Seeded k v n cs rest p h.1 cov.1 found in
        let slot : Slot = record (empty_slot c) { stake = seed_stake k v c } in
        let e' : some (slot ∷ rest) ≡ some ss = rw (staked, found, seed_slots) at e in
        let q : slot ∷ rest ≡ ss = cc in rw (← q) (Seeded-staked k v n c cs rest p h.0 cov.0 r)
  ]
]

-- The closed-form plan is inside the depth and the budget.
pub seed_plan-IsPlan :
    (cs : Chunks) (plan : List Slot)
    → All IsChunk cs.chunks
    → 0 < overround_of cs.n_groups cs.chunks
    → seed_plan cs ≡ some plan
    → IsPlan cs plan
unfolding seed_plan
seed_plan-IsPlan cs plan h p e =
    let v = overround_of cs.n_groups cs.chunks in
    let k = ceiling_of v cs.budget cs.n_groups cs.chunks in
    elim (Bool-cases (k == 0)) [
      | inl none_left ↦ cc (rw (none_left, seed_plan) at e)
      | inr some_left ↦
          let r =
            seed_slots-Seeded k v cs.n_groups cs.chunks plan p h
              (ceiling_of-Covered v cs.budget cs.n_groups cs.chunks)
              (rw (some_left, seed_plan) at e) in
          record {
            fits = r.fits;
            same = r.same;
            funded =
                le_trans (le_of_mul-le-mul_right r.shared p)
                  (ceiling_of-le v cs.budget cs.n_groups cs.chunks);
          }
    ]

pub offer_seed-IsBest :
    (cs : Chunks)
    → All IsChunk cs.chunks
    → 0 < overround_of cs.n_groups cs.chunks
    → IsBest cs (offer_seed cs)
unfolding offer_seed
offer_seed-IsBest cs h p = elim (Option-cases (seed_plan cs)) [
  | inl missing ↦ rw (missing, offer_seed) (λ e. cc)
  | inr (plan, found) ↦
      rw (found, offer_seed)
        (offer-IsBest cs plan nothing_yet (seed_plan-IsPlan cs plan h p found) (λ e. cc))
]
