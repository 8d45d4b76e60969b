-- ===== src/Engine/Aggregator/Legs.antt =====
-- The detection legs of the chosen chunks (crates/arbkit-engine/src/aggregator.rs).
use arbkit.Prelude.{
  ℕ, zero, suc, ◌≡◌, refl, ap, some, List, [], ◌∷◌, get_elem?, get_or, All, All-take, All-get_elem?,
  All-get_or, arith, Bool-cases, Option-cases, inl, inr,
}
use arbkit.Core.Price.{IsProb}
use arbkit.Core.Book.{Level, OutcomeBook, live_levels, new}
use arbkit.Core.Arb.{BookLeg}
use arbkit.Core.Arb.Backed.{IsLeg}
use arbkit.Engine.Slab.{EngineSlab, MarketConfig, get_book, flat_index}
use arbkit.Engine.Aggregator.{ChunkCandidate, ChunkPick, book_leg_from_candidate, legs_of}
use arbkit.Engine.Aggregator.Found.{Quoted}

-- Every level that the slab holds carries a valid price.
abbrev pub IsPriced : EngineSlab → Type 0
IsPriced slab = All (λ book. All (λ level. IsProb level.price) book.levels) slab.books

abbrev AllProb : List Level → Type 0
AllProb levels = All (λ level. IsProb level.price) levels

live-IsProb : (book : OutcomeBook) → AllProb book.levels → AllProb (live_levels book)
unfolding live_levels
live-IsProb book h = elim (Bool-cases book.stale) [
  | inl dead ↦ rw (dead, live_levels) tt
  | inr fresh ↦
      rw (fresh, live_levels) (All-take (λ level. IsProb level.price) book.len book.levels h)
]

get_book-IsProb :
    (slab : EngineSlab) (m o v : ℕ) (book : OutcomeBook)
    → IsPriced slab
    → get_book m o v slab ≡ some book
    → AllProb book.levels
unfolding get_book new
get_book-IsProb slab m o v book h e = elim (Option-cases (flat_index slab.max_markets m o v)) [
  | inl out ↦ cc (rw (out, get_book) at e)
  | inr (i, found) ↦
      let s : some (get_or slab.books i new) ≡ some book = rw (found, get_book) at e in
      let q : get_or slab.books i new ≡ book = cc in
      rw (← q) (All-get_or (λ b. AllProb b.levels) slab.books i new h (ground arith))
]

module _ (slab : EngineSlab) (config : MarketConfig) (market : ℕ) where
  pub Quoted-IsProb :
      (c : ChunkCandidate) → IsPriced slab → Quoted slab config market c → IsProb c.price
  Quoted-IsProb c priced q =
      let valid =
        live-IsProb q.book (get_book-IsProb slab market c.outcome c.venue q.book priced q.held) in
      rw (q.priced)
        (All-get_elem? (λ level. IsProb level.price) (live_levels q.book) q.index valid q.live)

  book_leg_from_candidate-IsLeg :
      (c : ChunkCandidate) → IsProb c.price → IsLeg (book_leg_from_candidate config c)
  unfolding book_leg_from_candidate
  book_leg_from_candidate-IsLeg c h = (h, ground arith)

  pub legs_of-IsLeg :
      (ps : List ChunkPick) → All (λ p. IsProb p.1.price) ps → All IsLeg (legs_of config ps)
  legs_of-IsLeg [] h = tt
  legs_of-IsLeg (p ∷ ps) (h, hs) = (book_leg_from_candidate-IsLeg p.1 h, legs_of-IsLeg ps hs)

  pub legs_of-get :
      (ps : List ChunkPick) (i : ℕ) (p : ChunkPick)
      → get_elem? ps i ≡ some p
      → get_elem? (legs_of config ps) i ≡ some (book_leg_from_candidate config p.1)
  legs_of-get [] i p e = cc
  legs_of-get (q ∷ ps) zero p e =
      let r : q ≡ p = cc in ap (λ x. some (book_leg_from_candidate config x.1)) r
  legs_of-get (q ∷ ps) (suc i) p e = legs_of-get ps i p e

  pub get-legs_of :
      (ps : List ChunkPick) (i : ℕ) (leg : BookLeg)
      → get_elem? (legs_of config ps) i ≡ some leg
      → (p : ChunkPick) × (get_elem? ps i ≡ some p) × (leg ≡ book_leg_from_candidate config p.1)
  get-legs_of [] i leg e = cc
  get-legs_of (q ∷ ps) zero leg e = (q, refl, cc)
  get-legs_of (q ∷ ps) (suc i) leg e = get-legs_of ps i leg e
