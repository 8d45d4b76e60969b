-- ===== src/Exec/Ledger/Found.antt =====
-- The order that a fill is about (crates/arbkit-exec/src/state.rs, `find_order`).
use arbkit.Prelude.{
  ◌≡◌, refl, ap, ap₂, ◌≢◌, ==→eq, All, ◌==◌, false, true, Option, none, some, List, [], ◌∷◌, arith,
  ==_self, Bool-cases, inl, inr, ◌⊎◌,
}
use arbkit.Prelude.Int.{ℤ}
use arbkit.Exec.Risk.{Text}
use arbkit.Exec.Ledger.{
  ReconciledOrder, FillEvent, Fingerprint, same_text, same_cents, same_profit, same_fill, is_text,
  is_about, find_order,
}

same_text_self : (t : Text) → same_text t t ≡ true
unfolding same_text
same_text_self [] = refl
same_text_self (a ∷ as_) = rw (==_self a) (same_text_self as_)

same_cents_self : (a : ℤ) → same_cents a a ≡ true
same_cents_self a = ground arith

same_profit_self : (a : Option ℤ) → same_profit a a ≡ true
same_profit_self none = refl
same_profit_self (some a) = same_cents_self a

pub same_fill_self : (p : Fingerprint) → same_fill p p ≡ true
unfolding same_fill
same_fill_self p = simp (same_text_self, same_cents_self, same_profit_self) refl

same_text→eq : (a b : Text) → same_text a b ≡ true → a ≡ b
unfolding same_text
same_text→eq [] [] h = refl
same_text→eq [] (y ∷ b) h = cc
same_text→eq (x ∷ a) [] h = cc
same_text→eq (x ∷ a) (y ∷ b) h = elim (Bool-cases (x == y)) [
  | inl same ↦ ap₂ (λ c cs. c ∷ cs) (==→eq x y same) (same_text→eq a b (rw same at h))
  | inr other ↦ cc (rw other at h)
]

-- Neither ID of the fill is that of the order.
abbrev pub IsForeign : FillEvent → ReconciledOrder → Type 0
IsForeign fill order =
    (order.venue_order_id ≢ some fill.venue_order_id)
    × (fill.client_order_id ≢ some order.client_order_id)

is_text-some : (o : Option Text) (t : Text) → o ≡ some t → is_text o t ≡ true
is_text-some none t e = cc
is_text-some (some a) t e = let q : a ≡ t = cc in rw q (same_text_self t)

is_text→eq : (o : Option Text) (t : Text) → is_text o t ≡ true → o ≡ some t
is_text→eq none t e = cc
is_text→eq (some a) t e = ap some (same_text→eq a t e)

not_about : (fill : FillEvent) (o : ReconciledOrder) → is_about fill o ≡ false → IsForeign fill o
unfolding is_about
not_about fill o h = (
  (λ e. cc (rw (is_text-some o.venue_order_id fill.venue_order_id e) at h)),
  (λ e.
      let q = is_text-some fill.client_order_id o.client_order_id e in
      absurd (ground (arith, q, h))),
)

-- The fill carries one of the IDs of the order.
abbrev pub IsAbout : FillEvent → ReconciledOrder → Type 0
IsAbout fill order =
    (order.venue_order_id ≡ some fill.venue_order_id)
    ⊎ (fill.client_order_id ≡ some order.client_order_id)

-- The first of the orders that the fill is about has this key.
abbrev pub IsFirst : FillEvent → Text → List (Text × ReconciledOrder) → Type 0
IsFirst fill key [] = ⊥
IsFirst fill key (e ∷ es) =
    (IsAbout fill e.1 × (e.0 ≡ key)) ⊎ (IsForeign fill e.1 × IsFirst fill key es)

IsAbout-true : (fill : FillEvent) (o : ReconciledOrder) → IsAbout fill o → is_about fill o ≡ true
unfolding is_about
IsAbout-true fill o (inl e) = rw (is_text-some o.venue_order_id fill.venue_order_id e) refl
IsAbout-true fill o (inr e) =
    let q = is_text-some fill.client_order_id o.client_order_id e in ground (arith, q)

IsForeign-false :
    (fill : FillEvent) (o : ReconciledOrder) → IsForeign fill o → is_about fill o ≡ false
unfolding is_about
IsForeign-false fill o (v, c) = elim (Bool-cases (is_text o.venue_order_id fill.venue_order_id)) [
  | inl same ↦ absurd (v (is_text→eq o.venue_order_id fill.venue_order_id same))
  | inr other ↦ elim (Bool-cases (is_text fill.client_order_id o.client_order_id)) [
    | inl same ↦ absurd (c (is_text→eq fill.client_order_id o.client_order_id same))
    | inr other' ↦ rw (other, other') refl
  ]
]

pub find_order-first :
    (fill : FillEvent) (key : Text) (es : List (Text × ReconciledOrder))
    → IsFirst fill key es
    → find_order fill es ≡ some key
unfolding find_order
find_order-first fill key [] h = absurd h
find_order-first fill key (e ∷ es) (inl (about, same)) =
    rw (IsAbout-true fill e.1 about) (ap some same)
find_order-first fill key (e ∷ es) (inr (foreign, later)) =
    rw (IsForeign-false fill e.1 foreign) (find_order-first fill key es later)

-- A fill that `find_order` finds no order for is about none.
pub find_order-none :
    (fill : FillEvent) (es : List (Text × ReconciledOrder))
    → find_order fill es ≡ none
    → All (λ e. IsForeign fill e.1) es
unfolding find_order
find_order-none fill [] h = tt
find_order-none fill (e ∷ es) h = elim (Bool-cases (is_about fill e.1)) [
  | inl here ↦ cc (rw here at h)
  | inr later ↦ (not_about fill e.1 later, find_order-none fill es (rw later at h))
]
