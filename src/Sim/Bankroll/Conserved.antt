-- ===== src/Sim/Bankroll/Conserved.antt =====
-- The balances under any run of operations (crates/arbkit-sim/src/bankroll.rs).
use arbkit.Prelude.{
  ℕ, ◌≡◌, ◌∙◌, List, [], ◌∷◌, length, get_or, All, arith, ltb-false, Bool-cases, Option-cases, inl,
  inr, length-set, All-set, All-get_or,
}
use arbkit.Prelude.Int.{
  ℤ, pos, ◌+ℤ◌, ◌-ℤ◌, ◌≤ℤ◌, leb_ℤ, ltb_ℤ, min_ℤ, max_ℤ, saturating_add, clamp_i64, i64_max,
  int_laws,
}
use arbkit.Sim.Bankroll.{
  Bankroll, max_bankroll_venues, index, write, spent, reserve, commit_fill, settle_loss, settle_win,
}

-- A balance: an i64 that is not negative.
abbrev pub IsBalance : ℤ → Type 0
IsBalance a = (pos 0 ≤ℤ a) × (a ≤ℤ pos i64_max)

pub record IsBankroll (b : Bankroll) : Type 0 where
  pub full : length b.available ≡ max_bankroll_venues
  pub full_locked : length b.locked ≡ max_bankroll_venues
  pub free : All IsBalance b.available
  pub held : All IsBalance b.locked

-- One operation on the bankroll.
pub data Operation : Type 0 where
  reserving : ℕ → ℤ → Operation
  committing : ℕ → ℤ → ℤ → Operation
  losing : ℕ → ℤ → Operation
  winning : ℕ → ℤ → ℤ → Operation

abbrev pub perform : Operation → Bankroll → Bankroll
perform (reserving v amount) b = (reserve v amount b).0
perform (committing v filled unfilled) b = commit_fill v filled unfilled b
perform (losing v locked) b = settle_loss v locked b
perform (winning v locked payout) b = settle_win v locked payout b

abbrev pub perform_all : List Operation → Bankroll → Bankroll
perform_all [] b = b
perform_all (o ∷ os) b = perform_all os (perform o b)

sum-IsBalance : (a b : ℤ) → IsBalance a → pos 0 ≤ℤ b → IsBalance (saturating_add a b)
sum-IsBalance a b h k = clamped (a +ℤ b) (omega (int_laws, h))
  where
    clamped : (c : ℤ) → pos 0 ≤ℤ c → IsBalance (clamp_i64 c)
    clamped c k = (ground arith, ground arith)

less-IsBalance : (a b : ℤ) → IsBalance a → pos 0 ≤ℤ b → b ≤ℤ a → IsBalance (a -ℤ b)
less-IsBalance a b h k l = (omega (int_laws, h), omega (int_laws, h))

-- What a refund or a settlement takes out of the locked balance.
pub drawn :
    (x l : ℤ)
    → IsBalance l
    → (pos 0 ≤ℤ min_ℤ (max_ℤ x (pos 0)) l) × (min_ℤ (max_ℤ x (pos 0)) l ≤ℤ l)
drawn x l h = (ground arith, ground arith)

spent-IsBalance : (x l : ℤ) → IsBalance l → IsBalance (spent x l)
spent-IsBalance x l h = let (p, q) = drawn x l h in less-IsBalance l _ h p q

zero-IsBalance : IsBalance (pos 0)
zero-IsBalance = (omega arith, omega arith)

write-IsBankroll :
    (i : ℕ) (a l : ℤ) (b : Bankroll)
    → IsBankroll b
    → IsBalance a
    → IsBalance l
    → IsBankroll (write i a l b)
write-IsBankroll i a l b h ha hl = record {
  full = length-set b.available i a ∙ h.full;
  full_locked = length-set b.locked i l ∙ h.full_locked;
  free = All-set IsBalance b.available i a h.free ha;
  held = All-set IsBalance b.locked i l h.held hl;
}

module _ (b : Bankroll) (h : IsBankroll b) (i : ℕ) where
  pub free_ok : IsBalance (get_or b.available i (pos 0))
  free_ok = All-get_or IsBalance b.available i (pos 0) h.free zero-IsBalance

  pub held_ok : IsBalance (get_or b.locked i (pos 0))
  held_ok = All-get_or IsBalance b.locked i (pos 0) h.held zero-IsBalance

pub reserve-IsBankroll :
    (v : ℕ) (amount : ℤ) (b : Bankroll) → IsBankroll b → IsBankroll (reserve v amount b).0
unfolding reserve
reserve-IsBankroll v amount b h = elim (Option-cases (index v)) [
  | inl out ↦ rw (out, reserve) h
  | inr (i, found) ↦ elim (Bool-cases (leb_ℤ amount (pos 0))) [
    | inl idle ↦ rw (found, idle, reserve) h
    | inr some_ ↦ elim (Bool-cases (ltb_ℤ (get_or b.available i (pos 0)) amount)) [
      | inl short ↦ rw (found, some_, short, reserve) h
      | inr funded ↦
          rw (found, some_, funded, reserve)
            (write-IsBankroll i _ _ b h
              (less-IsBalance _ amount (free_ok b h i) (ground arith) (ltb-false _ _ funded))
              (sum-IsBalance _ amount (held_ok b h i) (ground arith)))
    ]
  ]
]

pub commit_fill-IsBankroll :
    (v : ℕ) (filled unfilled : ℤ) (b : Bankroll)
    → IsBankroll b
    → IsBankroll (commit_fill v filled unfilled b)
unfolding commit_fill
commit_fill-IsBankroll v filled unfilled b h = elim (Option-cases (index v)) [
  | inl out ↦ rw (out, commit_fill) h
  | inr (i, found) ↦
      let (p, q) = drawn unfilled (get_or b.locked i (pos 0)) (held_ok b h i) in
      rw (found, commit_fill)
        (write-IsBankroll i _ _ b h (sum-IsBalance _ _ (free_ok b h i) p)
          (less-IsBalance _ _ (held_ok b h i) p q))
]

settle_loss-IsBankroll :
    (v : ℕ) (locked : ℤ) (b : Bankroll) → IsBankroll b → IsBankroll (settle_loss v locked b)
unfolding settle_loss
settle_loss-IsBankroll v locked b h = elim (Option-cases (index v)) [
  | inl out ↦ rw (out, settle_loss) h
  | inr (i, found) ↦
      rw (found, settle_loss)
        (record {
          full = h.full;
          full_locked = length-set b.locked i _ ∙ h.full_locked;
          free = h.free;
          held = All-set IsBalance b.locked i _ h.held (spent-IsBalance locked _ (held_ok b h i));
        })
]

settle_win-IsBankroll :
    (v : ℕ) (locked payout : ℤ) (b : Bankroll)
    → IsBankroll b
    → IsBankroll (settle_win v locked payout b)
unfolding settle_win
settle_win-IsBankroll v locked payout b h = elim (Option-cases (index v)) [
  | inl out ↦ rw (out, settle_win) h
  | inr (i, found) ↦
      rw (found, settle_win)
        (write-IsBankroll i _ _ b h (sum-IsBalance _ _ (free_ok b h i) (ground arith))
          (spent-IsBalance locked _ (held_ok b h i)))
]

-- Whatever operations are performed with whatever amounts, no balance of a valid bankroll turns
-- negative or leaves i64, and the arrays keep their size.
pub perform_all-IsBankroll :
    (os : List Operation) (b : Bankroll) → IsBankroll b → IsBankroll (perform_all os b)
perform_all-IsBankroll [] b h = h
perform_all-IsBankroll (reserving v a ∷ os) b h =
    perform_all-IsBankroll os _ (reserve-IsBankroll v a b h)
perform_all-IsBankroll (committing v f u ∷ os) b h =
    perform_all-IsBankroll os _ (commit_fill-IsBankroll v f u b h)
perform_all-IsBankroll (losing v l ∷ os) b h =
    perform_all-IsBankroll os _ (settle_loss-IsBankroll v l b h)
perform_all-IsBankroll (winning v l p ∷ os) b h =
    perform_all-IsBankroll os _ (settle_win-IsBankroll v l p b h)
