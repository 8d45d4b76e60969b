-- ===== src/Core/Book/Sort.antt =====
-- Sorting levels by price (crates/arbkit-core/src/book.rs, `sort_unstable_by_key`): the result is in
-- order and holds the same levels.
use mathlib.Core.List.{Perm}
use mathlib.Core.List.Perm
use native.Mathlib.Nat.{le_of_lt}
use arbkit.Prelude.{
  ℕ, suc, ◌≤◌, ◌≡◌, refl, List, [], ◌∷◌, All, length, arith, Bool-cases, inl, inr, leb, leb→le,
  leb-false,
}
use arbkit.Core.Book.{Level, insert_level, sort_levels}

-- No level of the list is a better price than `p`.
abbrev pub NoneBelow : ℕ → List Level → Type 0
NoneBelow p = All (λ x. p ≤ x.price.ppm)

-- Best price first.
abbrev pub IsSorted : List Level → Type 0
IsSorted [] = Unit
IsSorted (x ∷ xs) = NoneBelow x.price.ppm xs × IsSorted xs

NoneBelow-mono : (p q : ℕ) (xs : List Level) → p ≤ q → NoneBelow q xs → NoneBelow p xs
NoneBelow-mono p q [] h n = tt
NoneBelow-mono p q (x ∷ xs) h n = (omega arith, NoneBelow-mono p q xs h n.1)

insert-NoneBelow :
    (p : ℕ) (x : Level) (xs : List Level)
    → p ≤ x.price.ppm
    → NoneBelow p xs
    → NoneBelow p (insert_level x xs)
unfolding insert_level
insert-NoneBelow p x [] h n = (h, tt)
insert-NoneBelow p x (y ∷ ys) h n = ground (arith, insert-NoneBelow p x ys h n.1)

insert-IsSorted : (x : Level) (xs : List Level) → IsSorted xs → IsSorted (insert_level x xs)
unfolding insert_level
insert-IsSorted x [] s = (tt, tt)
insert-IsSorted x (y ∷ ys) s = elim (Bool-cases (leb x.price.ppm y.price.ppm)) [
  | inl e ↦ rw e ((leb→le _ _ e, NoneBelow-mono _ y.price.ppm ys (leb→le _ _ e) s.0), s)
  | inr e ↦
      rw e (insert-NoneBelow _ x ys (le_of_lt (leb-false _ _ e)) s.0, insert-IsSorted x ys s.1)
]

pub sort-IsSorted : (xs : List Level) → IsSorted (sort_levels xs)
unfolding sort_levels
sort-IsSorted [] = tt
sort-IsSorted (x ∷ xs) = insert-IsSorted x (sort_levels xs) (sort-IsSorted xs)

insert-perm : (x : Level) (xs : List Level) → Perm (insert_level x xs) (x ∷ xs)
unfolding insert_level
insert-perm x [] = Perm.refl (x ∷ [])
insert-perm x (y ∷ ys) = elim (Bool-cases (leb x.price.ppm y.price.ppm)) [
  | inl e ↦ rw e (Perm.refl (x ∷ y ∷ ys))
  | inr e ↦ rw e (Perm.trans (Perm.cons y (insert-perm x ys)) (Perm.swap x y ys))
]

pub sort-perm : (xs : List Level) → Perm (sort_levels xs) xs
unfolding sort_levels
sort-perm [] = Perm.refl []
sort-perm (x ∷ xs) = Perm.trans (insert-perm x (sort_levels xs)) (Perm.cons x (sort-perm xs))

length-insert : (x : Level) (xs : List Level) → length (insert_level x xs) ≡ suc (length xs)
unfolding insert_level
length-insert x [] = refl
length-insert x (y ∷ ys) = ground (arith, length-insert x ys)

pub length-sort : (xs : List Level) → length (sort_levels xs) ≡ length xs
unfolding sort_levels
length-sort [] = refl
length-sort (x ∷ xs) = omega (arith, length-insert x (sort_levels xs), length-sort xs)
