-- ===== src/Core/Arb/Fits.antt =====
-- What the sizing (Core/Arb/Sizing.antt, crates/arbkit-core/src/arb.rs) preserves of a plan: every
-- stake is a whole number of increments within its chunk's capacity, the chunks stay as they
-- are, and work on one group leaves the stakes of the others alone.
use arbkit.Prelude.{
  ℕ, zero, suc, ◌+◌, ◌-◌, ◌/◌, ◌≤◌, ◌≡◌, ◌≢◌, refl, ap, ap₂, ◌∙◌, Bool, true, false, List, [], ◌∷◌,
  map, All, arith, ltb, ltb-false, ◌==◌, Bool-cases, inl, inr, if◌then◌else◌,
}
use arbkit.Prelude.Division.{IsMultiple, mul-IsMultiple, zero-IsMultiple}
use arbkit.Core.Price.{ppm_one}
use arbkit.Core.Arb.{Chunk, Slot, round_down_to}
use arbkit.Core.Arb.Sizing.{
  is_live, group_payout, need, assign, retire, clear_live, wake, split_rounds, capped_any,
  frozen_now, live_price, live_count,
}

-- A chunk as the flattening makes it.
pub record IsChunk (c : Chunk) : Type 0 where
  pub priced : 1 ≤ c.price
  pub certain : c.price ≤ ppm_one
  pub stepped : 1 ≤ c.increment
  pub floored : c.capacity ≡ round_down_to c.resting c.increment

-- A stake that the venue takes: whole increments, within the capacity.
pub record Fits (s : Slot) : Type 0 where
  pub chunk_ok : IsChunk s.chunk
  pub within : s.stake ≤ s.chunk.capacity
  pub whole : IsMultiple s.chunk.increment s.stake

abbrev pub chunks_of : List Slot → List Chunk
chunks_of = map (λ s. s.chunk)

-- The same chunks, and the same stakes outside the group.
abbrev pub Keeps : ℕ → List Slot → List Slot → Type 0
Keeps g [] [] = Unit
Keeps g [] (t ∷ ts) = ⊥
Keeps g (s ∷ ss) [] = ⊥
Keeps g (s ∷ ss) (t ∷ ts) =
    (t.chunk ≡ s.chunk) × ((s.chunk.group == g) ≡ false → t.stake ≡ s.stake) × Keeps g ss ts

pub Keeps-refl : (g : ℕ) (ss : List Slot) → Keeps g ss ss
Keeps-refl g [] = tt
Keeps-refl g (s ∷ ss) = (refl, (λ e. refl), Keeps-refl g ss)

pub Keeps-trans : (g : ℕ) (ss ts us : List Slot) → Keeps g ss ts → Keeps g ts us → Keeps g ss us
Keeps-trans g [] [] [] h k = tt
Keeps-trans g [] [] (u ∷ us) h k = absurd k
Keeps-trans g [] (t ∷ ts) us h k = absurd h
Keeps-trans g (s ∷ ss) [] us h k = absurd h
Keeps-trans g (s ∷ ss) (t ∷ ts) [] h k = absurd k
Keeps-trans g (s ∷ ss) (t ∷ ts) (u ∷ us) (c, e, h) (d, f, k) =
    (d ∙ c, (λ o. f (ap (λ x. x.group == g) c ∙ o) ∙ e o), Keeps-trans g ss ts us h k)

-- A slot function that touches only its group.
abbrev pub IsLocal : ℕ → (Slot → Slot) → Type 0
IsLocal g f =
    (s : Slot)
    → ((f s).chunk ≡ s.chunk)
      × ((s.chunk.group == g) ≡ false → (f s).stake ≡ s.stake)
      × (Fits s → Fits (f s))

pub Keeps-map : (g : ℕ) (f : Slot → Slot) → IsLocal g f → (ss : List Slot) → Keeps g ss (map f ss)
Keeps-map g f h [] = tt
Keeps-map g f h (s ∷ ss) = ((h s).0, (h s).1, Keeps-map g f h ss)

pub Fits-map :
    (g : ℕ) (f : Slot → Slot) → IsLocal g f → (ss : List Slot) → All Fits ss → All Fits (map f ss)
Fits-map g f h [] a = tt
Fits-map g f h (s ∷ ss) a = ((h s).2 a.0, Fits-map g f h ss a.1)

pub chunks_of-Keeps : (g : ℕ) (ss ts : List Slot) → Keeps g ss ts → chunks_of ts ≡ chunks_of ss
chunks_of-Keeps g [] [] h = refl
chunks_of-Keeps g [] (t ∷ ts) h = absurd h
chunks_of-Keeps g (s ∷ ss) [] h = absurd h
chunks_of-Keeps g (s ∷ ss) (t ∷ ts) (c, e, h) = ap₂ ◌∷◌ c (chunks_of-Keeps g ss ts h)

-- Another group is paid what it was paid before.
pub group_payout-Keeps :
    (g k : ℕ) (ss ts : List Slot) → k ≢ g → Keeps g ss ts → group_payout k ts ≡ group_payout k ss
unfolding group_payout
group_payout-Keeps g k [] [] ne h = refl
group_payout-Keeps g k [] (t ∷ ts) ne h = absurd h
group_payout-Keeps g k (s ∷ ss) [] ne h = absurd h
group_payout-Keeps g k (s ∷ ss) (t ∷ ts) ne (c, e, h) =
    rw (group_payout-Keeps g k ss ts ne h, c) (ground arith)

pub need-IsMultiple : (r p : ℕ) (c : Chunk) → 1 ≤ c.increment → IsMultiple c.increment (need r p c)
unfolding need
need-IsMultiple r p c h = mul-IsMultiple _ c.increment h

pub capacity-IsMultiple : (c : Chunk) → IsChunk c → IsMultiple c.increment c.capacity
capacity-IsMultiple c h =
    rw (h.floored) (mul-IsMultiple (c.resting / c.increment) c.increment h.stepped)

pub assign-IsLocal : (g r p : ℕ) → IsLocal g (assign g r p)
unfolding assign
assign-IsLocal g r p s = elim (Bool-cases (is_live g s)) [
  | inl live ↦ elim (Bool-cases (ltb s.chunk.capacity (need r p s.chunk))) [
    | inl capped ↦
        rw (live, capped)
          (
            refl,
            (λ o. ground arith),
            (λ f. record {
              chunk_ok = f.chunk_ok;
              within = omega arith;
              whole = capacity-IsMultiple s.chunk f.chunk_ok;
            }),
          )
    | inr open_ ↦
        rw (live, open_)
          (
            refl,
            (λ o. ground arith),
            (λ f. record {
              chunk_ok = f.chunk_ok;
              within = ltb-false _ _ open_;
              whole = need-IsMultiple r p s.chunk f.chunk_ok.stepped;
            }),
          )
  ]
  | inr dead ↦ rw dead (
    refl,
    (λ o. refl),
    (λ f. record { chunk_ok = f.chunk_ok; within = f.within; whole = f.whole }),
  )
]

-- A slot function that leaves chunk and stake alone is local to any group.
still :
    (g : ℕ) (s t : Slot)
    → t.chunk ≡ s.chunk
    → t.stake ≡ s.stake
    → (t.chunk ≡ s.chunk) × ((s.chunk.group == g) ≡ false → t.stake ≡ s.stake) × (Fits s → Fits t)
still g s t c e = (c, (λ o. e), carry)
  where
    carry : Fits s → Fits t
    carry f = record {
      chunk_ok = rw c f.chunk_ok;
      within = rw (c, e) f.within;
      whole = rw (c, e) f.whole;
    }

pub retire-IsLocal : (g : ℕ) → IsLocal g retire
retire-IsLocal g s = elim (Bool-cases s.freeze) [
  | inl e ↦ still g s (retire s) (ground arith) (ground arith)
  | inr e ↦ still g s (retire s) (ground arith) (ground arith)
]

pub wake-IsLocal : (g : ℕ) → IsLocal g (wake g)
wake-IsLocal g s = still g s (wake g s) (ground arith) (ground arith)

pub clear_live-IsLocal : (g : ℕ) → IsLocal g (clear_live g)
clear_live-IsLocal g s = elim (Bool-cases (is_live g s)) [
  | inl live ↦ rw live (
    refl,
    (λ o. ground arith),
    (λ f. record {
      chunk_ok = f.chunk_ok;
      within = omega arith;
      whole = zero-IsMultiple s.chunk.increment;
    }),
  )
  | inr dead ↦ rw dead (still g s s refl refl)
]

-- What the sizing of a group leaves behind.
abbrev pub Kept : ℕ → List Slot → List Slot → Type 0
Kept g ss ts = Keeps g ss ts × All Fits ts

pub Kept-map :
    (g : ℕ) (f : Slot → Slot) → IsLocal g f → (ss : List Slot) → All Fits ss → Kept g ss (map f ss)
Kept-map g f h ss a = (Keeps-map g f h ss, Fits-map g f h ss a)

pub Kept-trans : (g : ℕ) (ss ts us : List Slot) → Keeps g ss ts → Kept g ts us → Kept g ss us
Kept-trans g ss ts us h k = (Keeps-trans g ss ts us h k.0, k.1)

Kept-if :
    (g : ℕ) (b : Bool) (ss ts us : List Slot)
    → Kept g ss ts
    → Kept g ss us
    → Kept g ss (if b then ts else us)
Kept-if g true ss ts us h k = h
Kept-if g false ss ts us h k = k

-- The split leaves stakes that fit, and touches only its group.
pub split_rounds-Kept :
    (m g target frozen : ℕ) (ss : List Slot)
    → All Fits ss
    → Kept g ss (split_rounds m g target frozen ss)
unfolding split_rounds
split_rounds-Kept zero g target frozen ss a = (Keeps-refl g ss, a)
split_rounds-Kept (suc m) g target frozen ss a =
    let r = target - frozen in
    let assigned = map (assign g r (live_price g ss)) ss in
    let k1 =
      Kept-map g (assign g r (live_price g ss)) (assign-IsLocal g r (live_price g ss)) ss a in
    let k2 = Kept-map g retire (retire-IsLocal g) assigned k1.1 in
    let k3 =
      split_rounds-Kept m g target (frozen + frozen_now assigned) (map retire assigned) k2.1 in
    Kept-if g (live_count g ss == 0) ss _ _ (Keeps-refl g ss, a)
      (Kept-if g (r == 0) ss _ _ (Kept-map g (clear_live g) (clear_live-IsLocal g) ss a) (
        Kept-if g (capped_any assigned) ss _ _
          (Kept-trans g ss assigned _ k1.0 (Kept-trans g assigned (map retire assigned) _ k2.0 k3))
          k1))
