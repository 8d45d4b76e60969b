-- ===== src/Core/Arb/Groups.antt =====
-- Grouping the legs (Core/Arb/Detect.antt, crates/arbkit-core/src/arb.rs, the first loop of
-- `detect_book`): two legs are in one group exactly when they back one outcome.
use arbkit.Prelude.{
  ℕ, zero, suc, ◌+◌, ◌<◌, ◌≡◌, ◌≢◌, ◌⊎◌, ==_self, refl, sym, ap, ◌∙◌, true, none, some, List, [],
  ◌∷◌, ◌++◌, length, get_or, get_elem?, arith, ◌==◌, ==→eq, Bool-cases, Option-cases, inl, inr,
}
use arbkit.Core.Arb.{BookLeg}
use arbkit.Core.Arb.Detect.{find_group, join_group, group_legs}

-- Each entry of the groups is where its leg's outcome stands among the outcomes.
abbrev pub Indexes : List ℕ → List ℕ → List BookLeg → Type 0
Indexes outcomes [] [] = Unit
Indexes outcomes [] (leg ∷ legs) = ⊥
Indexes outcomes (g ∷ gs) [] = ⊥
Indexes outcomes (g ∷ gs) (leg ∷ legs) =
    (get_elem? outcomes g ≡ some leg.outcome) × Indexes outcomes gs legs

-- No outcome stands twice.
abbrev pub IsDistinct : List ℕ → Type 0
IsDistinct os = (i j : ℕ) (o : ℕ) → get_elem? os i ≡ some o → get_elem? os j ≡ some o → i ≡ j

pub get_elem?-lt {ℓ} :
    {A : Type ℓ} (xs : List A) (i : ℕ) (x : A) → get_elem? xs i ≡ some x → i < length xs
get_elem?-lt [] i x e = cc
get_elem?-lt (y ∷ ys) zero x e = omega arith
get_elem?-lt (y ∷ ys) (suc i) x e = omega (arith, get_elem?-lt ys i x e)

get_elem?-append {ℓ} :
    {A : Type ℓ} (xs ys : List A) (i : ℕ) (x : A)
    → get_elem? xs i ≡ some x
    → get_elem? (xs ++ ys) i ≡ some x
get_elem?-append [] ys i x e = cc
get_elem?-append (y ∷ xs) ys zero x e = e
get_elem?-append (y ∷ xs) ys (suc i) x e = get_elem?-append xs ys i x e

get_elem?-last {ℓ} :
    {A : Type ℓ} (xs : List A) (y : A) → get_elem? (xs ++ (y ∷ [])) (length xs) ≡ some y
get_elem?-last [] y = refl
get_elem?-last (x ∷ xs) y = get_elem?-last xs y

-- An entry of a list with one more at the end is an old one, or the new one.
get_elem?-snoc :
    (xs : List ℕ) (y i x : ℕ)
    → get_elem? (xs ++ (y ∷ [])) i ≡ some x
    → (get_elem? xs i ≡ some x) ⊎ ((i ≡ length xs) × (x ≡ y))
get_elem?-snoc [] y zero x e = inr (refl, cc)
get_elem?-snoc [] y (suc i) x e = cc
get_elem?-snoc (z ∷ xs) y zero x e = inl e
get_elem?-snoc (z ∷ xs) y (suc i) x e = elim (get_elem?-snoc xs y i x e) [
  | inl old ↦ inl old
  | inr (q, r) ↦ inr (ap suc q, r)
]

-- Where `find_group` finds an outcome, or that it stands nowhere.
find_group-some :
    (o k : ℕ) (os : List ℕ) (g : ℕ)
    → find_group o k os ≡ some g
    → (i : ℕ) × (g ≡ k + i) × (get_elem? os i ≡ some o)
unfolding find_group
find_group-some o k [] g e = cc
find_group-some o k (p ∷ os) g e = elim (Bool-cases (p == o)) [
  | inl hit ↦
      let e' : some k ≡ some g = rw hit at e in
      let q : k ≡ g = cc in (zero, omega arith, ap some (==→eq p o hit))
  | inr miss ↦
      let (i, q, r) = find_group-some o (suc k) os g (rw miss at e) in (suc i, omega arith, r)
]

find_group-none :
    (o k : ℕ) (os : List ℕ) → find_group o k os ≡ none → (i : ℕ) → get_elem? os i ≢ some o
unfolding find_group
find_group-none o k [] e i h = cc
find_group-none o k (p ∷ os) e zero h =
    let q : p ≡ o = cc in let r : (p == o) ≡ true = rw q (==_self o) in cc (rw r at e)
find_group-none o k (p ∷ os) e (suc i) h = elim (Bool-cases (p == o)) [
  | inl hit ↦ cc (rw hit at e)
  | inr miss ↦ find_group-none o (suc k) os (rw miss at e) i h
]

-- What joining a group leaves: the outcomes are still distinct, the old ones where they were, and
-- the group is where the outcome stands.
record Joined (o : ℕ) (os : List ℕ) (r : ℕ × List ℕ) : Type 0 where
  distinct : IsDistinct r.1
  old : (i x : ℕ) → get_elem? os i ≡ some x → get_elem? r.1 i ≡ some x
  here : get_elem? r.1 r.0 ≡ some o

IsDistinct-snoc :
    (os : List ℕ) (o : ℕ)
    → IsDistinct os
    → ((i : ℕ) → get_elem? os i ≢ some o)
    → IsDistinct (os ++ (o ∷ []))
IsDistinct-snoc os o d new i j x hi hj = elim (get_elem?-snoc os o i x hi) [
  | inl a ↦ elim (get_elem?-snoc os o j x hj) [
    | inl b ↦ d i j x a b
    | inr (q, r) ↦ absurd (new i (rw r at a))
  ]
  | inr (q, r) ↦ elim (get_elem?-snoc os o j x hj) [
    | inl b ↦ absurd (new j (rw r at b))
    | inr (q', r') ↦ q ∙ sym q'
  ]
]

join_group-Joined : (o : ℕ) (os : List ℕ) → IsDistinct os → Joined o os (join_group o os)
unfolding join_group
join_group-Joined o os d = elim (Option-cases (find_group o 0 os)) [
  | inl missing ↦
      rw (missing, join_group)
        (record {
          distinct = IsDistinct-snoc os o d (find_group-none o 0 os missing);
          old = get_elem?-append os (o ∷ []);
          here = get_elem?-last os o;
        })
  | inr (g, found) ↦
      let (i, q, r) = find_group-some o 0 os g found in
      let q' : i ≡ g = omega (arith, q) in
      rw (found, join_group) (record { distinct = d; old = λ i x e. e; here = rw q' at r })
]

-- What `group_legs` makes of legs that are seen after the outcomes `os`.
pub record Grouped (legs : List BookLeg) (os : List ℕ) (r : List ℕ × List ℕ) : Type 0 where
  pub distinct : IsDistinct r.1
  pub old : (i x : ℕ) → get_elem? os i ≡ some x → get_elem? r.1 i ≡ some x
  pub each :
      (i : ℕ) (leg : BookLeg)
      → get_elem? legs i ≡ some leg
      → get_elem? r.1 (get_or r.0 i 0) ≡ some leg.outcome

pub group_legs-Grouped :
    (legs : List BookLeg) (os : List ℕ) → IsDistinct os → Grouped legs os (group_legs legs os)
unfolding group_legs
group_legs-Grouped [] os d = record { distinct = d; old = λ i x e. e; each = λ i leg e. cc }
group_legs-Grouped (l ∷ legs) os d =
    let j = join_group-Joined l.outcome os d in
    let r = group_legs-Grouped legs (join_group l.outcome os).1 j.distinct in
    record { distinct = r.distinct; old = λ i x e. r.old i x (j.old i x e); each = each r j }
  where
    seen : ℕ × List ℕ
    seen = join_group l.outcome os

    each :
        Grouped legs seen.1 (group_legs legs seen.1)
        → Joined l.outcome os seen
        → (i : ℕ) (leg : BookLeg) → get_elem? (l ∷ legs) i ≡ some leg
        → get_elem? (group_legs (l ∷ legs) os).1 (get_or (group_legs (l ∷ legs) os).0 i 0)
          ≡ some leg.outcome
    each r j zero leg e = let q : l ≡ leg = cc in rw (← q) (r.old seen.0 l.outcome j.here)
    each r j (suc i) leg e = r.each i leg e

-- Two legs are in one group exactly when they back one outcome.
pub group_legs-same :
    (legs : List BookLeg) (os : List ℕ) (r : List ℕ × List ℕ) (i g o : ℕ) (leg : BookLeg)
    → Grouped legs os r
    → get_elem? legs i ≡ some leg
    → get_elem? r.1 g ≡ some o
    → (leg.outcome == o) ≡ (get_or r.0 i 0 == g)
group_legs-same legs os r i g o leg h at hg = elim (Bool-cases (leg.outcome == o)) [
  | inl same ↦
      let q : leg.outcome ≡ o = ==→eq _ _ same in
      let e : get_or r.0 i 0 ≡ g = h.distinct _ _ o (rw q at (h.each i leg at)) hg in
      rw (same, e) (sym (==_self g))
  | inr other ↦ elim (Bool-cases (get_or r.0 i 0 == g)) [
    | inl same ↦
        let q : get_or r.0 i 0 ≡ g = ==→eq _ _ same in
        let e : get_elem? r.1 g ≡ some leg.outcome = rw q at (h.each i leg at) in
        let e' : leg.outcome ≡ o = cc in
        let e'' : (leg.outcome == o) ≡ true = rw e' (==_self o) in absurd (cc (sym e'' ∙ other))
    | inr apart ↦ rw (other, apart) refl
  ]
]

pub IsDistinct-nil : IsDistinct []
IsDistinct-nil i j o a b = cc
