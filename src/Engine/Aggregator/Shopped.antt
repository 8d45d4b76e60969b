-- ===== src/Engine/Aggregator/Shopped.antt =====
-- Fair coverage and line shopping (crates/arbkit-engine/src/aggregator.rs, `evaluate_market`).
use arbkit.Prelude.{
  ℕ, zero, suc, ◌+◌, ◌-◌, ◌≤◌, ◌<◌, ◌≡◌, ◌≢◌, refl, sym, ap, ◌∙◌, subst, Bool, true, false, not,
  none, some, List, [], ◌∷◌, ◌++◌, length, get_elem?, All, All-append, arith, ◌==◌, ==→eq, ==_self,
  Bool-cases, Option-cases, inl, inr, ◌⊎◌, append_nil, append_assoc,
}
use arbkit.Core.Arb.{max_chunks}
use arbkit.Engine.Aggregator.{ChunkCandidate, ChunkPick, scan, is_chosen, fair_plan, shop}
use arbkit.Engine.Aggregator.Chosen.{IsPick, AtMost, scan-AtMost, scan-IsPick}

-- A pick for an outcome: one of the candidates for it, and none of them has a lower price.
pub record IsBestFor (cs : List ChunkCandidate) (outcome : ℕ) (p : ChunkPick) : Type 0 where
  pub picked : IsPick cs p
  pub for_outcome : p.1.outcome ≡ outcome
  pub lowest :
      (i : ℕ) (c : ChunkCandidate)
      → get_elem? cs i ≡ some c
      → c.outcome ≡ outcome
      → p.1.eff_ppm ≤ c.eff_ppm

-- No candidate stands in the plan twice.
abbrev pub IsUnique : List ChunkPick → Type 0
IsUnique [] = Unit
IsUnique (p ∷ ps) = All (λ q. p.0 ≢ q.0) ps × IsUnique ps

-- The picks are the best for the outcomes from `outcome` on, in order.
abbrev pub Covers : List ChunkCandidate → ℕ → List ChunkPick → Type 0
Covers cs outcome [] = Unit
Covers cs outcome (p ∷ ps) = IsBestFor cs outcome p × Covers cs (suc outcome) ps

scan-IsBestFor :
    (cs : List ChunkCandidate) (o : ℕ) (p : ChunkPick)
    → scan (λ i c. c.outcome == o) 0 cs none ≡ some p
    → IsBestFor cs o p
scan-IsBestFor cs o p e =
    let test : ℕ → ChunkCandidate → Bool = λ i c. c.outcome == o in
    let (picked, same) =
      scan-IsPick test cs 0 cs none (λ j c q. ap (get_elem? cs) (omega arith) ∙ q) (λ b q. cc) p
        e in
    let low = (scan-AtMost test 0 cs none).1 in
    record {
      picked = picked;
      for_outcome = ==→eq p.1.outcome o same;
      lowest = λ i c at q. subst (λ r. AtMost r c.eff_ppm) e (low i c at (rw q (==_self o)));
    }

pub fair_plan-Covers :
    (n o : ℕ) (cs : List ChunkCandidate) (ps : List ChunkPick)
    → fair_plan n o cs ≡ some ps
    → Covers cs o ps × (length ps ≡ n)
unfolding fair_plan
fair_plan-Covers zero o cs ps e = let q : [] ≡ ps = cc in rw (← q) (tt, omega arith)
fair_plan-Covers (suc n) o cs ps e = elim (Option-cases (scan (λ i c. c.outcome == o) 0 cs none)) [
  | inl missing ↦ cc (rw (missing, fair_plan) at e)
  | inr (p, found) ↦ elim (Option-cases (fair_plan n (suc o) cs)) [
    | inl short ↦ cc (rw (found, fair_plan, short) at e)
    | inr (qs, rest) ↦
        let s : some (p ∷ qs) ≡ some ps = rw (found, fair_plan, rest) at e in
        let q : p ∷ qs ≡ ps = cc in
        let (covers, size) = fair_plan-Covers n (suc o) cs qs rest in
        rw (← q) ((scan-IsBestFor cs o p found, covers), omega (arith, size))
  ]
]

-- Picks for later outcomes are not this one.
later_apart :
    (cs : List ChunkCandidate) (o k : ℕ) (p : ChunkPick) (ps : List ChunkPick)
    → IsBestFor cs o p
    → o < k
    → Covers cs k ps
    → All (λ q. p.0 ≢ q.0) ps
later_apart cs o k p [] h lt c = tt
later_apart cs o k p (q ∷ ps) h lt (b, c) = (
  (λ e.
      let s : some p.1 ≡ some q.1 = sym h.picked ∙ ap (get_elem? cs) e ∙ b.picked in
      let r : p.1 ≡ q.1 = cc in
      let oc : p.1.outcome ≡ q.1.outcome = ap (λ x. x.outcome) r in
      absurd (omega (arith, oc, h.for_outcome, b.for_outcome))),
  later_apart cs o (suc k) p ps h (omega arith) c,
)

Covers-IsUnique :
    (cs : List ChunkCandidate) (o : ℕ) (ps : List ChunkPick) → Covers cs o ps → IsUnique ps
Covers-IsUnique cs o [] c = tt
Covers-IsUnique cs o (p ∷ ps) (b, c) =
    (later_apart cs o (suc o) p ps b (omega arith) c, Covers-IsUnique cs (suc o) ps c)

pub Covers-IsPick :
    (cs : List ChunkCandidate) (o : ℕ) (ps : List ChunkPick) → Covers cs o ps → All (IsPick cs) ps
Covers-IsPick cs o [] c = tt
Covers-IsPick cs o (p ∷ ps) (b, c) = (b.picked, Covers-IsPick cs (suc o) ps c)

is_chosen-append :
    (i : ℕ) (ps qs : List ChunkPick) → is_chosen i ps ≡ true → is_chosen i (ps ++ qs) ≡ true
unfolding is_chosen
is_chosen-append i [] qs h = cc
is_chosen-append i (p ∷ ps) qs h = elim (Bool-cases (p.0 == i)) [
  | inl here ↦ rw here refl
  | inr later ↦ rw later (is_chosen-append i ps qs (rw later at h))
]

not_chosen : (i : ℕ) (ps : List ChunkPick) → is_chosen i ps ≡ false → All (λ q. q.0 ≢ i) ps
unfolding is_chosen
not_chosen i [] h = tt
not_chosen i (p ∷ ps) h = elim (Bool-cases (p.0 == i)) [
  | inl here ↦ cc (rw here at h)
  | inr later ↦ ((λ e. cc (rw (e, ==_self i) at later)), not_chosen i ps (rw later at h))
]

IsUnique-snoc :
    (ps : List ChunkPick) (p : ChunkPick)
    → IsUnique ps
    → All (λ q. q.0 ≢ p.0) ps
    → IsUnique (ps ++ (p ∷ []))
IsUnique-snoc [] p u a = (tt, tt)
IsUnique-snoc (q ∷ ps) p (u, us) (a, as_) =
    (All-append (λ x. q.0 ≢ x.0) ps (p ∷ []) u (a, tt), IsUnique-snoc ps p us as_)

-- What line shopping adds to a plan: candidates that are not in it yet, no more than the slots, and
-- no candidate that is left out has a lower price than one of those, nor is left out while there
-- are slots.
pub record Shopped (cs : List ChunkCandidate) (slots : ℕ) (plan result : List ChunkPick)
    : Type 0 where
  pub extra : List ChunkPick
  pub appended : result ≡ plan ++ extra
  pub picked : All (IsPick cs) extra
  pub fits : length extra ≤ slots
  pub unique : IsUnique plan → IsUnique result
  pub greedy :
      (i : ℕ) (c : ChunkCandidate)
      → get_elem? cs i ≡ some c
      → (is_chosen i result ≡ true)
        ⊎ ((length extra ≡ slots) × All (λ p. p.1.eff_ppm ≤ c.eff_ppm) extra)

left_out :
    (i : ℕ) (ps : List ChunkPick) → is_chosen i ps ≡ false → not (is_chosen (0 + i) ps) ≡ true
left_out i ps h = let z : 0 + i ≡ i = omega arith in ap (λ k. not (is_chosen k ps)) z ∙ ap not h

shop-Shopped :
    (slots : ℕ) (cs : List ChunkCandidate) (plan : List ChunkPick)
    → Shopped cs slots plan (shop slots cs plan)
unfolding shop
shop-Shopped zero cs plan = record {
  extra = [];
  appended = sym (append_nil plan);
  picked = tt;
  fits = omega arith;
  unique = λ u. u;
  greedy = λ i c at. inr (refl, tt);
}
shop-Shopped (suc slots) cs plan =
    let test : ℕ → ChunkCandidate → Bool = λ i c. not (is_chosen i plan) in
    let low = (scan-AtMost test 0 cs none).1 in
    elim (Option-cases (scan test 0 cs none)) [
      | inl over ↦
          rw (over, shop)
            (record {
              extra = [];
              appended = sym (append_nil plan);
              picked = tt;
              fits = omega arith;
              unique = λ u. u;
              greedy = λ i c at. elim (Bool-cases (is_chosen i plan)) [
                | inl yes_ ↦ inl yes_
                | inr no_ ↦
                    absurd (subst (λ r. AtMost r c.eff_ppm) over (low i c at (left_out i plan no_)))
              ];
            })
      | inr (p, found) ↦
          let (picked, fresh) =
            scan-IsPick test cs 0 cs none (λ j c q. ap (get_elem? cs) (omega arith) ∙ q) (λ b q. cc)
              p found in
          let unused : is_chosen p.0 plan ≡ false = ground (arith, fresh) in
          let s = shop-Shopped slots cs (plan ++ (p ∷ [])) in
          rw (found, shop)
            (record {
              extra = p ∷ s.extra;
              appended = s.appended ∙ append_assoc plan (p ∷ []) s.extra;
              picked = (picked, s.picked);
              fits = omega (arith, s.fits);
              unique = λ u. s.unique (IsUnique-snoc plan p u (not_chosen p.0 plan unused));
              greedy = λ i c at. elim (Bool-cases (is_chosen i plan)) [
                | inl yes_ ↦ inl (
                    rw (s.appended) (
                      is_chosen-append i (plan ++ (p ∷ [])) s.extra
                        (is_chosen-append i plan (p ∷ []) yes_)))
                | inr no_ ↦ elim (s.greedy i c at) [
                  | inl yes_ ↦ inl yes_
                  | inr (full, cheap) ↦ inr (
                    ap suc full,
                    (
                      subst (λ r. AtMost r c.eff_ppm) found (low i c at (left_out i plan no_)),
                      cheap,
                    ),
                  )
                ]
              ];
            })
    ]

-- The plan of a market: the chunks that fair coverage and line shopping choose from its candidates.
pub record IsPlan (cs : List ChunkCandidate) (outcomes : ℕ) (fair plan : List ChunkPick)
    : Type 0 where
  pub covers : Covers cs 0 fair
  pub sized : length fair ≡ outcomes
  pub shopped : Shopped cs (max_chunks - length fair) fair plan
  pub unique : IsUnique plan

pub fair_plan-IsPlan :
    (n : ℕ) (cs : List ChunkCandidate) (fair : List ChunkPick)
    → fair_plan n 0 cs ≡ some fair
    → IsPlan cs n fair (shop (max_chunks - length fair) cs fair)
fair_plan-IsPlan n cs fair e =
    let (covers, size) = fair_plan-Covers n 0 cs fair e in
    let s = shop-Shopped (max_chunks - length fair) cs fair in
    record {
      covers = covers;
      sized = size;
      shopped = s;
      unique = s.unique (Covers-IsUnique cs 0 fair covers);
    }

-- There is a candidate for the outcome.
abbrev pub HasCandidate : List ChunkCandidate → ℕ → Type 0
HasCandidate cs outcome =
    (i : ℕ) × (c : ChunkCandidate) × (get_elem? cs i ≡ some c) × (c.outcome ≡ outcome)

fair_plan-found :
    (n o : ℕ) (cs : List ChunkCandidate)
    → ((k : ℕ) → o ≤ k → k < o + n → HasCandidate cs k)
    → (ps : List ChunkPick) × (fair_plan n o cs ≡ some ps)
unfolding fair_plan
fair_plan-found zero o cs h = ([], refl)
fair_plan-found (suc n) o cs h =
    let test : ℕ → ChunkCandidate → Bool = λ i c. c.outcome == o in
    let (i, c, at, same) = h o (omega arith) (omega arith) in
    let (qs, rest) = fair_plan-found n (suc o) cs (λ k lo hi. h k (omega arith) (omega arith)) in
    elim (Option-cases (scan test 0 cs none)) [
      | inl missing ↦ absurd (
          subst (λ r. AtMost r c.eff_ppm) missing
            ((scan-AtMost test 0 cs none).1 i c at (rw same (==_self o))))
      | inr (p, found) ↦ (p ∷ qs, rw (found, fair_plan, rest) refl)
    ]

-- When every outcome has a candidate, there is a fair plan of the market, which holds the best
-- candidate of each outcome in turn; line shopping keeps it and goes on with the best of the
-- candidates left, in any outcome, until the plan holds sixteen or none is left; no candidate
-- stands in it twice.
pub shop-IsPlan :
    (n : ℕ) (cs : List ChunkCandidate)
    → ((outcome : ℕ) → outcome < n → HasCandidate cs outcome)
    → (fair : List ChunkPick) × (fair_plan n 0 cs ≡ some fair)
      × IsPlan cs n fair (shop (max_chunks - length fair) cs fair)
shop-IsPlan n cs h =
    let (fair, e) = fair_plan-found n 0 cs (λ k lo hi. h k (omega arith)) in
    (fair, e, fair_plan-IsPlan n cs fair e)
