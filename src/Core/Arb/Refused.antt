-- ===== src/Core/Arb/Refused.antt =====
-- Why a book is refused, and the first leg without an increment (crates/arbkit-core/src/arb.rs).
use arbkit.Prelude.{
  ℕ, zero, suc, ◌+◌, ◌<◌, ◌≤◌, ◌≡◌, ◌≢◌, ◌⊎◌, ap, ◌∙◌, true, false, ◌&&◌, some, List, [], ◌∷◌,
  length, get_elem?, arith, ltb, All, Bool-cases, inl, inr,
}
use arbkit.Prelude.Int.{pos, ◌≤ℤ◌, leb_ℤ}
use arbkit.Core.Error.{ArbError, leg_count_out_of_range, zero_stake_increment}
use arbkit.Core.Arb.{BookLeg}
use arbkit.Core.Arb.Detect.{zero_increment}

-- A leg that has levels and no positive increment.
abbrev pub IsStepless : BookLeg → Type 0
IsStepless leg = (0 < leg.n_levels) × (leg.increment ≤ℤ pos 0)

-- The leg at the index is the first that has levels and no positive increment.
abbrev pub IsFirstStepless : List BookLeg → ℕ → Type 0
IsFirstStepless [] i = ⊥
IsFirstStepless (leg ∷ legs) zero = IsStepless leg
IsFirstStepless (leg ∷ legs) (suc i) = ¬ IsStepless leg × IsFirstStepless legs i

-- All the legs back one outcome.
abbrev pub IsOneOutcome : List BookLeg → Type 0
IsOneOutcome legs = (o : ℕ) × All (λ leg. leg.outcome ≡ o) legs

-- Two of the legs back different outcomes.
abbrev pub HasOutcomes : List BookLeg → Type 0
HasOutcomes legs =
    (i : ℕ) × (j : ℕ) × (a : BookLeg) × (b : BookLeg) × (get_elem? legs i ≡ some a)
    × (get_elem? legs j ≡ some b)
    × (a.outcome ≢ b.outcome)

-- Why a book is refused, the first of the causes that holds.
pub data IsRefused (legs : List BookLeg) : ArbError → Type 0 where
  wrong_count :
      (length legs < 2) ⊎ (16 < length legs) → IsRefused legs (leg_count_out_of_range (length legs))
  one_outcome :
      2 ≤ length legs
      → length legs ≤ 16
      → IsOneOutcome legs
      → IsRefused legs (leg_count_out_of_range 1)
  no_step :
      {i : ℕ}
      → 2 ≤ length legs
      → length legs ≤ 16
      → HasOutcomes legs
      → IsFirstStepless legs i
      → IsRefused legs (zero_stake_increment i)

pub zero_increment-IsFirstStepless :
    (k : ℕ) (legs : List BookLeg) (i : ℕ)
    → zero_increment k legs ≡ some i
    → (j : ℕ) × (i ≡ k + j) × IsFirstStepless legs j
unfolding zero_increment
zero_increment-IsFirstStepless k [] i e = cc
zero_increment-IsFirstStepless k (leg ∷ legs) i e =
    elim (Bool-cases (ltb 0 leg.n_levels && leb_ℤ leg.increment (pos 0))) [
      | inl bad ↦
          let e' : some k ≡ some i = rw bad at e in
          let q : k ≡ i = cc in (zero, omega arith, ground arith)
      | inr good ↦
          let (j, q, h) = zero_increment-IsFirstStepless (suc k) legs i (rw good at e) in
          let not_this : ¬ IsStepless leg = ground arith in (suc j, omega (arith, q), (not_this, h))
    ]

pub zero_increment-first :
    (k : ℕ) (legs : List BookLeg) (j : ℕ)
    → IsFirstStepless legs j
    → zero_increment k legs ≡ some (k + j)
unfolding zero_increment
zero_increment-first k [] j h = absurd h
zero_increment-first k (leg ∷ legs) zero h =
    let bad : (ltb 0 leg.n_levels && leb_ℤ leg.increment (pos 0)) ≡ true = ground arith in
    let z : k ≡ k + 0 = omega arith in rw bad (ap some z)
zero_increment-first k (leg ∷ legs) (suc j) (h, later) =
    let good : (ltb 0 leg.n_levels && leb_ℤ leg.increment (pos 0)) ≡ false = ground arith in
    let z : suc k + j ≡ k + suc j = omega arith in
    rw good (zero_increment-first (suc k) legs j later ∙ ap some z)
