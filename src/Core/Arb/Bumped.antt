-- ===== src/Core/Arb/Bumped.antt =====
-- What a bump of the repair keeps of the plan (crates/arbkit-core/src/arb.rs).
use arbkit.Prelude.{
  ℕ, zero, suc, ◌+◌, ◌*◌, ◌≤◌, ◌≡◌, refl, sym, ap, ◌∙◌, subst, true, Option, none, some, List, [],
  ◌∷◌, All, get_elem?, arith, leb, ltb, ltb-false, Bool-cases, inl, inr, if◌then◌else◌,
}
use arbkit.Prelude.Division.{div_mono, add-IsMultiple}
use arbkit.Core.Price.{ppm_one}
use arbkit.Core.Arb.{Chunk, Slot, payout}
use arbkit.Core.Arb.Sizing.{in_group, group_payout, Bump, better_bump, bump_of, best_bump, bump_at}
use arbkit.Core.Arb.Fits.{Fits, Kept, Keeps-refl}

pub payout_mono : (c : Chunk) (a b : ℕ) → 1 ≤ c.price → a ≤ b → payout c a ≤ payout c b
unfolding payout
payout_mono c a b h k = omega (arith, div_mono (a * ppm_one) (b * ppm_one) c.price h (omega arith))

-- A candidate of the repair loop stands at a member with room for one more increment.
pub record Candidate (g : ℕ) (ss : List Slot) (b : Bump) : Type 0 where
  pub slot : Slot
  pub at : get_elem? ss b.at ≡ some slot
  pub member : in_group g slot ≡ true
  pub room : slot.stake + slot.chunk.increment ≤ slot.chunk.capacity
  pub is_bump : b ≡ bump_of b.at slot

abbrev Maybe : (Bump → Type 0) → Option Bump → Type 0
Maybe P none = Unit
Maybe P (some b) = P b

better_bump-Maybe :
    (P : Bump → Type 0) (o : Option Bump) (b : Bump) → Maybe P o → P b → Maybe P (better_bump o b)
unfolding better_bump
better_bump-Maybe P none b h k = k
better_bump-Maybe P (some a) b h k = elim (Bool-cases (leb (b.gain * a.step) (a.gain * b.step))) [
  | inl e ↦ rw e h
  | inr e ↦ rw e k
]

-- Whatever holds of every candidate holds of the best one.
best_bump-Maybe :
    (P : Bump → Type 0) (g i : ℕ) (ss : List Slot) (o : Option Bump)
    → ((k : ℕ) (s : Slot)
        → get_elem? ss k ≡ some s
        → in_group g s ≡ true
        → s.stake + s.chunk.increment ≤ s.chunk.capacity
        → P (bump_of (i + k) s))
    → Maybe P o
    → Maybe P (best_bump g i ss o)
unfolding best_bump
best_bump-Maybe P g i [] o all h = h
best_bump-Maybe P g i (s ∷ ss) o all h = best_bump-Maybe P g (suc i) ss next later now
  where
    next : Option Bump
    next =
        if in_group g s
        then if ltb s.chunk.capacity (s.stake + s.chunk.increment)
          then o
          else better_bump o (bump_of i s)
        else o

    later :
        (k : ℕ) (t : Slot)
        → get_elem? ss k ≡ some t
        → in_group g t ≡ true
        → t.stake + t.chunk.increment ≤ t.chunk.capacity
        → P (bump_of (suc i + k) t)
    later k t e m r =
        let q : i + suc k ≡ suc i + k = omega arith in
        subst (λ n. P (bump_of n t)) q (all (suc k) t e m r)

    here : in_group g s ≡ true → s.stake + s.chunk.increment ≤ s.chunk.capacity → P (bump_of i s)
    here m r =
        let q : i + zero ≡ i = omega arith in subst (λ n. P (bump_of n s)) q (all zero s refl m r)

    now : Maybe P next
    now = elim (Bool-cases (in_group g s)) [
      | inl m ↦ elim (Bool-cases (ltb s.chunk.capacity (s.stake + s.chunk.increment))) [
        | inl e ↦ rw (m, e) h
        | inr e ↦ rw (m, e) (better_bump-Maybe P o (bump_of i s) h (here m (ltb-false _ _ e)))
      ]
      | inr m ↦ rw m h
    ]

pub best_bump-Candidate :
    (g : ℕ) (ss : List Slot) (b : Bump) → best_bump g 0 ss none ≡ some b → Candidate g ss b
best_bump-Candidate g ss b e =
    subst (Maybe (Candidate g ss)) e (best_bump-Maybe (Candidate g ss) g 0 ss none each tt)
  where
    each :
        (k : ℕ) (s : Slot)
        → get_elem? ss k ≡ some s
        → in_group g s ≡ true
        → s.stake + s.chunk.increment ≤ s.chunk.capacity
        → Candidate g ss (bump_of (0 + k) s)
    each k s at m r =
        let q : k ≡ 0 + k = omega arith in
        subst (λ n. Candidate g ss (bump_of n s)) q
          (record { slot = s; at = at; member = m; room = r; is_bump = refl })

-- A member at the head of the slots.
bump_head :
    (g : ℕ) (x : Slot) (xs : List Slot)
    → Fits x
    → All Fits xs
    → in_group g x ≡ true
    → x.stake + x.chunk.increment ≤ x.chunk.capacity
    → Kept g (x ∷ xs) (record x { stake = x.stake + x.chunk.increment } ∷ xs)
      × (group_payout g (record x { stake = x.stake + x.chunk.increment } ∷ xs)
          ≡ group_payout g (x ∷ xs) + (bump_of 0 x).gain)
unfolding group_payout
bump_head g x xs f a m r = (
  (
    (refl, (λ o. cc (sym m ∙ o)), Keeps-refl g xs),
    (
      record {
        chunk_ok = f.chunk_ok;
        within = r;
        whole = add-IsMultiple x.chunk.increment x.stake f.chunk_ok.stepped f.whole;
      },
      a,
    ),
  ),
  rw m (
      omega (
        arith,
        payout_mono x.chunk x.stake (x.stake + x.chunk.increment) f.chunk_ok.priced (omega arith),
      )),
)

-- One more increment on a member with room: the slots fit, and the group is paid the gain more.
bump_at-Kept :
    (g k : ℕ) (ss : List Slot) (s : Slot)
    → All Fits ss
    → get_elem? ss k ≡ some s
    → in_group g s ≡ true
    → s.stake + s.chunk.increment ≤ s.chunk.capacity
    → Kept g ss (bump_at k s.chunk.increment ss)
      × (group_payout g (bump_at k s.chunk.increment ss) ≡ group_payout g ss + (bump_of k s).gain)
unfolding bump_at group_payout
bump_at-Kept g k [] s a e m r = cc
bump_at-Kept g zero (x ∷ xs) s a e m r =
    let q : s ≡ x = cc in rw (q, bump_at) (bump_head g x xs a.0 a.1 (rw q at m) (rw q at r))
bump_at-Kept g (suc k) (x ∷ xs) s a e m r =
    let (kept, paid) = bump_at-Kept g k xs s a.1 e m r in
    (((refl, (λ o. refl), kept.0), (a.0, kept.1)), omega (arith, paid))

pub bump-Kept :
    (g : ℕ) (ss : List Slot) (b : Bump)
    → All Fits ss
    → Candidate g ss b
    → Kept g ss (bump_at b.at b.step ss)
      × (group_payout g (bump_at b.at b.step ss) ≡ group_payout g ss + b.gain)
bump-Kept g ss b a c =
    let step : b.step ≡ c.slot.chunk.increment = ap (λ x. x.step) c.is_bump in
    let gain : b.gain ≡ (bump_of b.at c.slot).gain = ap (λ x. x.gain) c.is_bump in
    rw (step, gain) (bump_at-Kept g b.at ss c.slot a c.at c.member c.room)
