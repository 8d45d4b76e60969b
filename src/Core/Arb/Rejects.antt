-- ===== src/Core/Arb/Rejects.antt =====
-- When `detect_book` refuses its arguments (Core/Arb/Detect.antt, crates/arbkit-core/src/arb.rs).
use arbkit.Prelude.{
  ℕ, zero, suc, ◌+◌, ◌<◌, ◌≤◌, ◌≡◌, ◌≢◌, ◌⊎◌, refl, sym, ap, ◌∙◌, subst, true, false, ◌||◌, Option,
  some, List, [], ◌∷◌, length, get_elem?, get_or, arith, ltb, leb, ◌==◌, ==→eq, ==_self, All,
  Bool-cases, Option-cases, inl, inr,
}
use arbkit.Prelude.Int.{ℤ, pos, leb_ℤ}
use arbkit.Core.Error.{Result, err, ArbError, leg_count_out_of_range, zero_stake_increment}
use arbkit.Core.Price.{ppm_one}
use arbkit.Core.Arb.{BookLeg, Signal, max_chunks}
use arbkit.Core.Arb.Candidates.{overround_of}
use arbkit.Core.Arb.Detect.{
  nothing_taken, pass_one, zero_increment, plan, find_group, join_group, group_legs, detect_book,
}
use arbkit.Core.Arb.Groups.{IsDistinct-nil, group_legs-Grouped, get_elem?-lt}
use arbkit.Core.Arb.Refused.{
  IsRefused, wrong_count, one_outcome, no_step, IsFirstStepless, IsOneOutcome, HasOutcomes,
  zero_increment-IsFirstStepless, zero_increment-first,
}

err_inj : (d e : ArbError) → Path (Result (Option Signal)) (err d) (err e) → d ≡ e
err_inj d e h = cc

-- `plan` fails only on a leg without an increment.
plan-err :
    (legs : List BookLeg) (group_of : List ℕ) (n : ℕ) (budget : ℤ) (e : ArbError)
    → plan legs group_of n budget ≡ err e
    → (i : ℕ) × (e ≡ zero_stake_increment i) × (zero_increment 0 legs ≡ some i)
unfolding plan
plan-err legs group_of n budget e h = elim (Option-cases (zero_increment 0 legs)) [
  | inr (i, bad) ↦ (i, sym (err_inj (zero_stake_increment i) e (rw (bad, plan) at h)), bad)
  | inl stepped ↦ elim (Bool-cases (leb_ℤ budget (pos 0))) [
    | inl broke ↦ cc (rw (stepped, broke, plan) at h)
    | inr funded ↦ elim (Option-cases (pass_one legs group_of n 0 nothing_taken)) [
      | inl missing ↦ cc (rw (stepped, funded, missing, plan) at h)
      | inr (flat, found) ↦ elim (Bool-cases (leb ppm_one (overround_of n flat.chunks))) [
        | inl fair ↦ cc (rw (stepped, funded, found, fair, plan) at h)
        | inr edge ↦ cc (rw (stepped, funded, found, edge, plan) at h)
      ]
    ]
  ]
]

plan-stepless :
    (legs : List BookLeg) (group_of : List ℕ) (n : ℕ) (budget : ℤ) (i : ℕ)
    → zero_increment 0 legs ≡ some i
    → plan legs group_of n budget ≡ err (zero_stake_increment i)
unfolding plan
plan-stepless legs group_of n budget i e = rw (e, plan) refl

join_group-again : (o : ℕ) → (join_group o (o ∷ [])).1 ≡ o ∷ []
unfolding join_group find_group
join_group-again o = rw (==_self o, join_group) refl

-- Legs of the one outcome that was seen make no new group.
group_legs-one :
    (legs : List BookLeg) (o : ℕ)
    → All (λ leg. leg.outcome ≡ o) legs
    → (group_legs legs (o ∷ [])).1 ≡ o ∷ []
unfolding group_legs
group_legs-one [] o h = refl
group_legs-one (leg ∷ legs) o (q, h) = rw (q, join_group-again o) (group_legs-one legs o h)

length-one :
    (legs : List BookLeg) → 2 ≤ length legs → IsOneOutcome legs → length (group_legs legs []).1 ≡ 1
unfolding group_legs join_group find_group
length-one [] h one = absurd (omega arith)
length-one (leg ∷ legs) h (o, (q, same)) = rw q (ap length (group_legs-one legs o same))

-- Legs of different outcomes make two groups at least.
length-several : (legs : List BookLeg) → HasOutcomes legs → 2 ≤ length (group_legs legs []).1
length-several legs (i, j, a, b, at, at', apart) =
    elim (Bool-cases (ltb (length (group_legs legs []).1) 2)) [
      | inr enough ↦ ground arith
      | inl few ↦
          let g = group_legs-Grouped legs [] IsDistinct-nil in
          let p =
            get_elem?-lt (group_legs legs []).1 (get_or (group_legs legs []).0 i 0) a.outcome
              (g.each i a at) in
          let q =
            get_elem?-lt (group_legs legs []).1 (get_or (group_legs legs []).0 j 0) b.outcome
              (g.each j b at') in
          let small : length (group_legs legs []).1 < 2 = ground arith in
          let same : get_or (group_legs legs []).0 i 0 ≡ get_or (group_legs legs []).0 j 0 =
            omega (arith, p, q, small) in
          let e : get_elem? (group_legs legs []).1 (get_or (group_legs legs []).0 j 0)
              ≡ some a.outcome =
            rw same at (g.each i a at) in
          let f : some a.outcome ≡ some b.outcome = sym e ∙ g.each j b at' in
          let r : a.outcome ≡ b.outcome = cc in absurd (apart r)
    ]

outcome-cases :
    (legs : List BookLeg) (o : ℕ)
    → All (λ leg. leg.outcome ≡ o) legs
      ⊎ ((j : ℕ) × (b : BookLeg) × (get_elem? legs j ≡ some b) × (o ≢ b.outcome))
outcome-cases [] o = inl tt
outcome-cases (leg ∷ legs) o = elim (Bool-cases (leg.outcome == o)) [
  | inr other ↦ inr (zero, leg, refl, (λ e. cc (rw (← e, ==_self o) at other)))
  | inl same ↦ elim (outcome-cases legs o) [
    | inl all ↦ inl (==→eq leg.outcome o same, all)
    | inr (j, b, at, apart) ↦ inr (suc j, b, at, apart)
  ]
]

leg-cases : (legs : List BookLeg) → 2 ≤ length legs → IsOneOutcome legs ⊎ HasOutcomes legs
leg-cases [] h = absurd (omega arith)
leg-cases (leg ∷ legs) h = elim (outcome-cases legs leg.outcome) [
  | inl all ↦ inl (leg.outcome, (refl, all))
  | inr (j, b, at, apart) ↦ inr (zero, suc j, leg, b, refl, at, apart)
]

-- `detect_book` on a number of legs in range.
detect_book-few :
    (legs : List BookLeg) (budget : ℤ)
    → 2 ≤ length legs
    → length legs ≤ 16
    → IsOneOutcome legs
    → detect_book legs budget ≡ err (leg_count_out_of_range 1)
unfolding detect_book
detect_book-few legs budget lo hi one =
    let in_range : (ltb (length legs) 2 || ltb max_chunks (length legs)) ≡ false = ground arith in
    rw (in_range, length-one legs lo one) refl

detect_book-plan :
    (legs : List BookLeg) (budget : ℤ)
    → 2 ≤ length legs
    → length legs ≤ 16
    → HasOutcomes legs
    → detect_book legs budget
      ≡ plan legs (group_legs legs []).0 (length (group_legs legs []).1) budget
unfolding detect_book
detect_book-plan legs budget lo hi several =
    let in_range : (ltb (length legs) 2 || ltb max_chunks (length legs)) ≡ false = ground arith in
    let enough : ltb (length (group_legs legs []).1) 2 ≡ false =
      ground (arith, length-several legs several) in
    rw (in_range, enough) refl

detect_book-wrong :
    (legs : List BookLeg) (budget : ℤ)
    → (length legs < 2) ⊎ (16 < length legs)
    → detect_book legs budget ≡ err (leg_count_out_of_range (length legs))
unfolding detect_book
detect_book-wrong legs budget h =
    let out : (ltb (length legs) 2 || ltb max_chunks (length legs)) ≡ true = ground arith in
    rw out refl

in_range-cases : (n : ℕ) → ((n < 2) ⊎ (16 < n)) ⊎ ((2 ≤ n) × (n ≤ 16))
in_range-cases n = elim (Bool-cases (ltb n 2 || ltb 16 n)) [
  | inl out ↦ inl (ground arith)
  | inr in_range ↦ inr (ground arith)
]

refused :
    (legs : List BookLeg) (budget : ℤ) (e : ArbError)
    → detect_book legs budget ≡ err e
    → IsRefused legs e
refused legs budget e h = elim (in_range-cases (length legs)) [
  | inl out ↦
      subst (IsRefused legs)
        (err_inj (leg_count_out_of_range (length legs)) e
          (sym (detect_book-wrong legs budget out) ∙ h))
        (wrong_count out)
  | inr (lo, hi) ↦ elim (leg-cases legs lo) [
    | inl one ↦
        subst (IsRefused legs)
          (err_inj (leg_count_out_of_range 1) e (sym (detect_book-few legs budget lo hi one) ∙ h))
          (one_outcome lo hi one)
    | inr several ↦
        let (i, q, bad) =
          plan-err legs (group_legs legs []).0 (length (group_legs legs []).1) budget e
            (sym (detect_book-plan legs budget lo hi several) ∙ h) in
        let (j, r, first) = zero_increment-IsFirstStepless 0 legs i bad in
        let r' : j ≡ i = omega (arith, r) in
        subst (IsRefused legs) (sym q)
          (no_step lo hi several (subst (IsFirstStepless legs) r' first))
  ]
]

refuses :
    (legs : List BookLeg) (budget : ℤ) (e : ArbError)
    → IsRefused legs e
    → detect_book legs budget ≡ err e
refuses legs budget _ (wrong_count out) = detect_book-wrong legs budget out
refuses legs budget _ (one_outcome lo hi one) = detect_book-few legs budget lo hi one
refuses legs budget _ (no_step {i} lo hi several first) =
    let z : 0 + i ≡ i = omega arith in
    detect_book-plan legs budget lo hi several
    ∙ plan-stepless legs (group_legs legs []).0 (length (group_legs legs []).1) budget i
        (zero_increment-first 0 legs i first ∙ ap some z)

-- `detect_book` returns an error exactly when one of these causes holds, the first that does, and
-- the error names it: fewer than two legs or more than sixteen, with their number; legs that all
-- back one outcome, with the number one; or a leg that has levels and no positive increment, with
-- the index of the first such leg. In every other case it returns no error, whatever the budget.
pub detect_book-err :
    (legs : List BookLeg) (budget : ℤ) (e : ArbError)
    → (detect_book legs budget ≡ err e → IsRefused legs e)
      × (IsRefused legs e → detect_book legs budget ≡ err e)
detect_book-err legs budget e = (refused legs budget e, refuses legs budget e)
