-- ===== src/Sim/Bankroll/Moves.antt =====
-- Reservations and refunds (crates/arbkit-sim/src/bankroll.rs): what they move between the free and
-- the locked balance of a venue.
use native.Mathlib.Decide.{ℕ_discrete}
use arbkit.Prelude.{
  ℕ, ◌≤◌, ◌<◌, ◌≡◌, ◌⊎◌, refl, ◌∙◌, true, false, none, some, length, get_or, arith, ltb-false,
  leb→le, Bool-cases, Option-cases, inl, inr, get_or-set_self, get_or-set_ne,
}
use arbkit.Prelude.Int.{
  ℤ, pos, ◌+ℤ◌, ◌-ℤ◌, ◌≤ℤ◌, leb_ℤ, ltb_ℤ, min_ℤ, max_ℤ, saturating_add, clamp_i64, i64_max,
  int_laws, eq_of_parts,
}
use arbkit.Sim.Bankroll.{
  Bankroll, max_bankroll_venues, index, available_at, locked_at, write, reserved, refunded, reserve,
  commit_fill,
}
use arbkit.Sim.Bankroll.Conserved.{IsBalance, IsBankroll, free_ok, held_ok, drawn}

-- All that a venue holds, free or locked.
abbrev pub venue_total : ℕ → Bankroll → ℤ
venue_total v b = available_at v b +ℤ locked_at v b

-- A sum that fits in i64 is exact.
saturating_exact :
    (a b : ℤ) → pos 0 ≤ℤ a → pos 0 ≤ℤ b → a +ℤ b ≤ℤ pos i64_max → saturating_add a b ≡ a +ℤ b
saturating_exact a b h k l = unclamped (a +ℤ b) (omega (int_laws, h, k)) l
  where
    unclamped : (c : ℤ) → pos 0 ≤ℤ c → c ≤ℤ pos i64_max → clamp_i64 c ≡ c
    unclamped c p q = ground arith

index-some : (v i : ℕ) → index v ≡ some i → (v ≡ i) × (i < max_bankroll_venues)
unfolding index
index-some v i e = ground arith

total-write :
    (i : ℕ) (a l : ℤ) (b : Bankroll) (u : ℕ)
    → IsBankroll b
    → i < max_bankroll_venues
    → a +ℤ l ≡ get_or b.available i (pos 0) +ℤ get_or b.locked i (pos 0)
    → venue_total u (write i a l b) ≡ venue_total u b
unfolding available_at locked_at
total-write i a l b u h lt e = elim (Option-cases (index u)) [
  | inl out ↦ rw (out, available_at, locked_at) refl
  | inr (j, found) ↦ elim (ℕ_discrete i j) [
    | yes same ↦
        rw
          (
            found,
            available_at,
            locked_at,
            ← same,
            get_or-set_self b.available i a (pos 0) (omega (arith, h.full)),
            get_or-set_self b.locked i l (pos 0) (omega (arith, h.full_locked)),
          )
          e
    | no apart ↦
        rw
          (
            found,
            available_at,
            locked_at,
            get_or-set_ne b.available i j a (pos 0) apart,
            get_or-set_ne b.locked i j l (pos 0) apart,
          )
          refl
  ]
]

here_total :
    (v i : ℕ) (b : Bankroll)
    → index v ≡ some i
    → venue_total v b ≡ get_or b.available i (pos 0) +ℤ get_or b.locked i (pos 0)
unfolding available_at locked_at
here_total v i b e = rw (e, available_at, locked_at) refl

index-none : (v : ℕ) → index v ≡ none → max_bankroll_venues ≤ v
unfolding index
index-none v e = ground arith

here_available :
    (v i : ℕ) (b : Bankroll) → index v ≡ some i → available_at v b ≡ get_or b.available i (pos 0)
unfolding available_at
here_available v i b e = rw (e, available_at) refl

here_locked :
    (v i : ℕ) (b : Bankroll) → index v ≡ some i → locked_at v b ≡ get_or b.locked i (pos 0)
unfolding locked_at
here_locked v i b e = rw (e, locked_at) refl

nothing_locked : (v : ℕ) (b : Bankroll) → index v ≡ none → locked_at v b ≡ pos 0
unfolding locked_at
nothing_locked v b e = rw (e, locked_at) refl

locked_write :
    (v i : ℕ) (a l : ℤ) (b : Bankroll)
    → index v ≡ some i
    → i < length b.locked
    → locked_at v (write i a l b) ≡ l
locked_write v i a l b e lt =
    here_locked v i (write i a l b) e ∙ get_or-set_self b.locked i l (pos 0) lt

unfunded :
    (amount a : ℤ)
    → leb_ℤ amount (pos 0) ≡ false
    → ltb_ℤ a amount ≡ true
    → (amount ≤ℤ pos 0) ⊎ (amount ≤ℤ a)
    → ⊥
unfunded amount a p q h = ground arith

-- The sums of the two operations.
reserved_sum :
    (amount a l : ℤ)
    → IsBalance a
    → IsBalance l
    → pos 0 ≤ℤ amount
    → amount ≤ℤ a
    → a +ℤ l ≤ℤ pos i64_max
    → (reserved amount a l).0 +ℤ (reserved amount a l).1 ≡ a +ℤ l
reserved_sum amount a l ha hl p q top =
    let e : saturating_add l amount ≡ l +ℤ amount =
      saturating_exact l amount (hl.0) p (omega (int_laws, top)) in
    rw e (eq_of_parts _ _ (omega int_laws))

refunded_sum :
    (unfilled a l : ℤ)
    → IsBalance a
    → IsBalance l
    → a +ℤ l ≤ℤ pos i64_max
    → (refunded unfilled a l).0 +ℤ (refunded unfilled a l).1 ≡ a +ℤ l
refunded_sum unfilled a l ha hl top =
    let refund = min_ℤ (max_ℤ unfilled (pos 0)) l in
    let (p, q) = drawn unfilled l hl in
    let e : saturating_add a refund ≡ a +ℤ refund =
      saturating_exact a refund (ha.0) p (omega (int_laws, top)) in
    rw e (eq_of_parts _ _ (omega int_laws))

-- A reservation on a valid bankroll, at a venue whose balances together fit in i64, succeeds exactly
-- at a venue of the bankroll that has the amount free, or for no positive amount; one that fails
-- changes nothing, and whether it does or not every venue holds what it held.
pub reserve_outcome :
    (v : ℕ) (amount : ℤ) (b : Bankroll)
    → IsBankroll b
    → venue_total v b ≤ℤ pos i64_max
    → let r = reserve v amount b in
      (r.1 ≡ true → (v < max_bankroll_venues) × ((amount ≤ℤ pos 0) ⊎ (amount ≤ℤ available_at v b)))
      × (v < max_bankroll_venues → (amount ≤ℤ pos 0) ⊎ (amount ≤ℤ available_at v b) → r.1 ≡ true)
      × (r.1 ≡ false → r.0 ≡ b)
      × ((u : ℕ) → venue_total u r.0 ≡ venue_total u b)
unfolding reserve
reserve_outcome v amount b h top = elim (Option-cases (index v)) [
  | inl out ↦
      rw (out, reserve)
        ((λ e. cc), (λ lt. absurd (omega (arith, lt, index-none v out))), (λ e. refl), (λ u. refl))
  | inr (i, found) ↦
      let (same, lt) = index-some v i found in
      let free : available_at v b ≡ get_or b.available i (pos 0) = here_available v i b found in
      let lt' : v < max_bankroll_venues = omega arith in
      elim (Bool-cases (leb_ℤ amount (pos 0))) [
        | inl idle ↦
            rw (found, idle, reserve)
              ((λ e. (lt', inl (leb→le _ _ idle))), (λ m e. refl), (λ e. cc), (λ u. refl))
        | inr some_ ↦ elim (Bool-cases (ltb_ℤ (get_or b.available i (pos 0)) amount)) [
          | inl short ↦
              rw (found, some_, short, reserve, free)
                (
                  (λ e. cc),
                  (λ m fits.
                      absurd (unfunded amount (get_or b.available i (pos 0)) some_ short fits)),
                  (λ e. refl),
                  (λ u. refl),
                )
          | inr funded ↦
              rw (found, some_, funded, reserve, free)
                (
                  (λ e. (lt', inr (ltb-false _ _ funded))),
                  (λ m e. refl),
                  (λ e. cc),
                  (λ u. total-write i _ _ b u h lt (
                      reserved_sum amount _ _ (free_ok b h i) (held_ok b h i) (ground arith)
                        (ltb-false _ _ funded) (rw (here_total v i b found) at top))),
                )
        ]
      ]
]

nothing_drawn : (x : ℤ) → pos 0 ≡ pos 0 -ℤ min_ℤ (max_ℤ x (pos 0)) (pos 0)
nothing_drawn x =
    let (p, q) = drawn x (pos 0) (omega arith, omega arith) in eq_of_parts _ _ (omega int_laws)

-- Committing a fill on a valid bankroll, at a venue whose balances together fit in i64, gives back
-- free what was unfilled, up to what is locked, and leaves every venue's total as it was.
pub commit_fill_outcome :
    (v : ℕ) (filled unfilled : ℤ) (b : Bankroll)
    → IsBankroll b
    → venue_total v b ≤ℤ pos i64_max
    → let b' = commit_fill v filled unfilled b in
      (locked_at v b' ≡ locked_at v b -ℤ min_ℤ (max_ℤ unfilled (pos 0)) (locked_at v b))
      × ((u : ℕ) → venue_total u b' ≡ venue_total u b)
unfolding commit_fill
commit_fill_outcome v filled unfilled b h top = elim (Option-cases (index v)) [
  | inl out ↦ rw (out, commit_fill, nothing_locked v b out) (nothing_drawn unfilled, (λ u. refl))
  | inr (i, found) ↦
      let (same, lt) = index-some v i found in
      rw (found, commit_fill)
        (
          locked_write v i _ _ b found (omega (arith, h.full_locked))
              ∙ rw (here_locked v i b found) refl,
          (λ u. total-write i _ _ b u h lt (
              refunded_sum unfilled _ _ (free_ok b h i) (held_ok b h i)
                (rw (here_total v i b found) at top))),
        )
]
