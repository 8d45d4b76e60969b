-- ===== src/Engine/Ring/Slots.antt =====
-- Arithmetic of the positions of the ring, and its arrays as lists (crates/arbkit-engine/src/ring.rs).
use native.Mathlib.Nat.{mod-add-div', mul-le-mul_right}
use arbkit.Prelude.{
  ℕ, zero, suc, ◌+◌, ◌/◌, ◌%◌, ◌≤◌, ◌<◌, ◌≡◌, ◌≢◌, refl, ap, ◌∙◌, some, List, [], ◌∷◌, ◌++◌, length,
  take, get_elem?, get_or, set, arith, ltb, ◌⊎◌, Bool-cases, inl, inr,
}
use arbkit.Engine.Ring.{turns_from}

-- Two positions less than the capacity apart have different slots.
pub apart : (c n m : ℕ) → n < m → m < n + c → n % c ≢ m % c
apart c n m lt near e =
    let a = mod-add-div' n c in
    let b = mod-add-div' m c in
    elim (Bool-cases (ltb (n / c) (m / c))) [
      | inl before ↦
          absurd
            (omega (arith, a, b, mul-le-mul_right {m = suc (n / c)} {n = m / c} c (ground arith)))
      | inr after ↦
          absurd (omega (arith, a, b, mul-le-mul_right {m = m / c} {n = n / c} c (ground arith)))
    ]

module _ {ℓ} {A : Type ℓ} where
  pub get_elem?-set_self :
      (xs : List A) (i : ℕ) (v : A) → i < length xs → get_elem? (set xs i v) i ≡ some v
  get_elem?-set_self [] i v h = absurd (omega arith)
  get_elem?-set_self (x ∷ xs) zero v h = refl
  get_elem?-set_self (x ∷ xs) (suc i) v h = get_elem?-set_self xs i v (omega arith)

  pub get_elem?-set_ne :
      (xs : List A) (i j : ℕ) (v : A) → i ≢ j → get_elem? (set xs i v) j ≡ get_elem? xs j
  get_elem?-set_ne [] i j v h = refl
  get_elem?-set_ne (x ∷ xs) zero zero v h = absurd (h refl)
  get_elem?-set_ne (x ∷ xs) zero (suc j) v h = refl
  get_elem?-set_ne (x ∷ xs) (suc i) zero v h = refl
  get_elem?-set_ne (x ∷ xs) (suc i) (suc j) v h = get_elem?-set_ne xs i j v (λ e. h (ap suc e))

  pub get_elem?-bound : (xs : List A) (i : ℕ) (x : A) → get_elem? xs i ≡ some x → i < length xs
  get_elem?-bound [] i x e = cc
  get_elem?-bound (y ∷ xs) zero x e = omega arith
  get_elem?-bound (y ∷ xs) (suc i) x e = omega (arith, get_elem?-bound xs i x e)

  -- An item added at the end is the item at the old length, and no other changes.
  pub get_elem?-snoc :
      (xs : List A) (v : A) (i : ℕ) (x : A)
      → get_elem? (xs ++ (v ∷ [])) i ≡ some x
      → (get_elem? xs i ≡ some x) ⊎ ((i ≡ length xs) × (v ≡ x))
  get_elem?-snoc [] v zero x e = inr (omega arith, cc)
  get_elem?-snoc [] v (suc i) x e = cc
  get_elem?-snoc (y ∷ xs) v zero x e = inl e
  get_elem?-snoc (y ∷ xs) v (suc i) x e = elim (get_elem?-snoc xs v i x e) [
    | inl old ↦ inl old
    | inr (at, new_) ↦ inr (ap suc at, new_)
  ]

  pub get_elem?-append :
      (xs ys : List A) (i : ℕ) (x : A) → get_elem? xs i ≡ some x → get_elem? (xs ++ ys) i ≡ some x
  get_elem?-append [] ys i x e = cc
  get_elem?-append (y ∷ xs) ys zero x e = e
  get_elem?-append (y ∷ xs) ys (suc i) x e = get_elem?-append xs ys i x e

  pub get_elem?-at : (xs : List A) (i : ℕ) → i < length xs → (x : A) × (get_elem? xs i ≡ some x)
  get_elem?-at [] i h = absurd (omega arith)
  get_elem?-at (x ∷ xs) zero h = (x, refl)
  get_elem?-at (x ∷ xs) (suc i) h = get_elem?-at xs i (omega arith)

  pub get_or-at : (xs : List A) (i : ℕ) (d x : A) → get_elem? xs i ≡ some x → get_or xs i d ≡ x
  get_or-at [] i d x e = cc
  get_or-at (y ∷ xs) zero d x e = cc
  get_or-at (y ∷ xs) (suc i) d x e = get_or-at xs i d x e

  pub take-snoc :
      (xs : List A) (i : ℕ) (x : A)
      → get_elem? xs i ≡ some x
      → take (suc i) xs ≡ take i xs ++ (x ∷ [])
  take-snoc [] i x e = cc
  take-snoc (y ∷ xs) zero x e = let q : y ≡ x = cc in ap (λ z. z ∷ []) q
  take-snoc (y ∷ xs) (suc i) x e = ap (◌∷◌ y) (take-snoc xs i x e)

  pub take-append_le : (n : ℕ) (xs ys : List A) → n ≤ length xs → take n (xs ++ ys) ≡ take n xs
  take-append_le zero xs ys h = refl
  take-append_le (suc n) [] ys h = absurd (omega arith)
  take-append_le (suc n) (x ∷ xs) ys h = ap (◌∷◌ x) (take-append_le n xs ys (omega arith))

pub length-turns_from : (i n : ℕ) → length (turns_from i n) ≡ n
length-turns_from i zero = refl
length-turns_from i (suc n) = ap suc (length-turns_from (suc i) n)

pub get_or-turns_from : (i n k : ℕ) → k < n → get_or (turns_from i n) k 0 ≡ i + k
get_or-turns_from i zero k h = absurd (omega arith)
get_or-turns_from i (suc n) zero h = omega arith
get_or-turns_from i (suc n) (suc k) h = get_or-turns_from (suc i) n k (omega arith) ∙ omega arith
