-- ===== src/Core/Error.antt =====
-- crates/arbkit-core/src/error.rs: the errors of the domain core and its `Result`.
-- `UnusableQuote` carries an f64 and belongs to the float constructors, which are not modelled.
use arbkit.Prelude.{ℕ}
use arbkit.Prelude.Int.{ℤ}

pub data ArbError : Type 0 where
  prob_out_of_range : ℕ → ArbError
  odds_out_of_range : ℕ → ArbError
  american_out_of_range : ℤ → ArbError
  invalid_fractional : ℕ → ℕ → ArbError
  leg_count_out_of_range : ℕ → ArbError
  zero_stake_increment : ℕ → ArbError

pub data Result {ℓ} (A : Type ℓ) : Type ℓ where
  ok : A → Result A
  err : ArbError → Result A

-- `Result::unwrap_or`
abbrev pub unwrap_or {ℓ} : {A : Type ℓ} → Result A → A → A
unwrap_or (ok a) d = a
unwrap_or (err e) d = d
