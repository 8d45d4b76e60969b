-- ===== src/Core/Arb/Planned.antt =====
-- What a signal comes from (Core/Arb/Detect.antt, crates/arbkit-core/src/arb.rs): the chunks behind
-- it stand for listed levels, and the best plan over them is one that the venues and the budget
-- allow.
use native.Mathlib.Nat.{mul-suc}
use arbkit.Prelude.{
  ℕ, zero, suc, ◌+◌, ◌*◌, ◌/◌, ◌^◌, ◌≤◌, ◌<◌, ◌≡◌, refl, false, ◌||◌, some, List, [], ◌∷◌, length,
  All, arith, ltb, leb, leb-false, ltb-false, Bool-cases, Option-cases, inl, inr,
}
use arbkit.Prelude.Division.{div_le}
use arbkit.Prelude.Int.{ℤ, pos, negsuc, pos_part, leb_ℤ, i64_max}
use arbkit.Core.Error.{ok}
use arbkit.Core.Price.{ppm_one}
use arbkit.Core.Arb.{BookLeg, Chunk, Chunks, Signal, max_chunks, max_search_steps}
use arbkit.Core.Arb.Candidates.{
  overround_of, highest_of, cheapest_of, lower_to_reach, offer_seed, search_result,
}
use arbkit.Core.Arb.Detect.{
  nothing_taken, pass_one, pass_two, zero_increment, report, plan, group_legs, detect_book,
}
use arbkit.Core.Arb.Fits.{IsChunk}
use arbkit.Core.Arb.Search.{Ended, run_search-Ended}
use arbkit.Core.Arb.Seed.{offer_seed-IsBest}
use arbkit.Core.Arb.Backed.{Backs}
use arbkit.Core.Arb.Flatten.{FlatOk, pass_one-FlatOk, pass_two-FlatOk, overround_of-pos}

-- The chunks that a signal is reported on.
pub record Planned (legs : List BookLeg) (group_of : List ℕ) (n : ℕ) (budget : ℤ) (s : Signal)
    : Type 0 where
  pub cs : Chunks
  pub backed : All (Backs legs group_of) cs.chunks
  pub some_chunk : 1 ≤ length cs.chunks
  pub groups : cs.n_groups ≡ n
  pub funded : budget ≡ pos cs.budget
  pub overround : ℕ
  pub edge : overround < ppm_one
  pub reported : report overround cs ≡ some s

pos_part-pos : (a : ℤ) → leb_ℤ a (pos 0) ≡ false → a ≡ pos (pos_part a)
pos_part-pos (pos n) h = refl
pos_part-pos (negsuc n) h = ground arith

pub plan-Planned :
    (legs : List BookLeg) (group_of : List ℕ) (n : ℕ) (budget : ℤ) (s : Signal)
    → 1 ≤ n
    → plan legs group_of n budget ≡ ok (some s)
    → Planned legs group_of n budget s
unfolding plan
plan-Planned legs group_of n budget s hn e = elim (Option-cases (zero_increment 0 legs)) [
  | inr (i, bad) ↦ cc (rw (bad, plan) at e)
  | inl stepped ↦ elim (Bool-cases (leb_ℤ budget (pos 0))) [
    | inl broke ↦ cc (rw (stepped, broke, plan) at e)
    | inr funded ↦ elim (Option-cases (pass_one legs group_of n 0 nothing_taken)) [
      | inl missing ↦ cc (rw (stepped, funded, missing, plan) at e)
      | inr (flat, found) ↦ elim (Bool-cases (leb ppm_one (overround_of n flat.chunks))) [
        | inl fair ↦ cc (rw (stepped, funded, found, fair, plan) at e)
        | inr edge ↦
            let first : FlatOk legs group_of (0 + n) flat =
              pass_one-FlatOk legs group_of n 0 0 nothing_taken flat (tt, omega arith) found in
            let both = pass_two-FlatOk legs group_of (0 + n) flat first in
            let cs : Chunks = record {
              chunks = (pass_two group_of 0 legs flat).chunks;
              n_groups = n;
              budget = pos_part budget;
            } in
            let e' : ok (report (overround_of n flat.chunks) cs) ≡ ok (some s) =
              rw (stepped, funded, found, edge, plan) at e in
            record {
              cs = cs;
              backed = both.0;
              some_chunk = omega (arith, both.1);
              groups = refl;
              funded = pos_part-pos budget funded;
              overround = overround_of n flat.chunks;
              edge = leb-false _ _ edge;
              reported = cc;
            }
      ]
    ]
  ]
]

pub detect_book-Planned :
    (legs : List BookLeg) (budget : ℤ) (s : Signal)
    → detect_book legs budget ≡ ok (some s)
    → Planned legs (group_legs legs []).0 (length (group_legs legs []).1) budget s
unfolding detect_book
detect_book-Planned legs budget s e =
    elim (Bool-cases (ltb (length legs) 2 || ltb max_chunks (length legs))) [
      | inl out ↦ cc (rw (out, detect_book) at e)
      | inr in_range ↦ elim (Bool-cases (ltb (length (group_legs legs []).1) 2)) [
        | inl few ↦ cc (rw (in_range, few, detect_book) at e)
        | inr enough ↦
            plan-Planned legs (group_legs legs []).0 (length (group_legs legs []).1) budget s
              (omega (arith, ltb-false _ _ enough)) (rw (in_range, enough, detect_book) at e)
      ]
    ]

lower_to_reach-le : (n : ℕ) (cs : List Chunk) (h : ℕ) → lower_to_reach n cs h ≤ h
unfolding lower_to_reach
lower_to_reach-le zero cs h = omega arith
lower_to_reach-le (suc n) cs h = omega (arith, lower_to_reach-le n cs h)

cheapest_of-pos : (cs : List Chunk) → All IsChunk cs → 1 ≤ cheapest_of cs
unfolding cheapest_of
cheapest_of-pos [] h = omega arith
cheapest_of-pos (c ∷ cs) h = omega (arith, cheapest_of-pos cs h.1, h.0.priced)

le_times : (a b : ℕ) → 1 ≤ b → a ≤ a * b
le_times a zero h = absurd (omega arith)
le_times a (suc b) h = rw (mul-suc a b) (omega arith)

-- The steps of the search are enough for every budget of 64 bits.
pub highest_of-lt :
    (cs : Chunks)
    → All IsChunk cs.chunks
    → cs.budget ≤ i64_max
    → highest_of cs < 2 ^ max_search_steps
unfolding highest_of
highest_of-lt cs h b =
    let p = cheapest_of-pos cs.chunks h in
    let q : cs.budget * ppm_one / cheapest_of cs.chunks ≤ cs.budget * ppm_one =
      div_le (cs.budget * ppm_one) (cheapest_of cs.chunks) (cs.budget * ppm_one) p
        (le_times (cs.budget * ppm_one) _ p) in
    omega (
      arith,
      q,
      lower_to_reach-le cs.n_groups cs.chunks (cs.budget * ppm_one / cheapest_of cs.chunks),
    )

-- How the search over the chunks ends.
pub search_result-Ended :
    (cs : Chunks)
    → All IsChunk cs.chunks
    → 1 ≤ cs.n_groups
    → 1 ≤ length cs.chunks
    → cs.budget ≤ i64_max
    → Ended cs (offer_seed cs) (search_result cs)
unfolding search_result
search_result-Ended cs h n l b =
    run_search-Ended max_search_steps cs 0 (highest_of cs) (offer_seed cs) h
      (record {
        ordered = omega arith;
        best_ok = offer_seed-IsBest cs h (overround_of-pos cs.n_groups cs.chunks n l h);
        reached = inl refl;
        blocked = inl refl;
      })
      (omega (arith, highest_of-lt cs h b))
