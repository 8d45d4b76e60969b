-- ===== src/Engine/Aggregator/Found.antt =====
-- What a candidate of the aggregator stands for (crates/arbkit-engine/src/aggregator.rs): a live level
-- of a book of the slab.
use arbkit.Prelude.{
  ℕ, zero, suc, ◌+◌, ◌≤◌, ◌<◌, ◌≡◌, refl, ap, ◌∙◌, false, some, List, [], ◌∷◌, get_elem?, get_or,
  All, All-append, arith, Bool-cases, Option-cases, inl, inr,
}
use arbkit.Prelude.Int.{ℤ, pos, leb_ℤ}
use arbkit.Core.Fee.{free, effective}
use arbkit.Core.Book.{Level, OutcomeBook, live_levels}
use arbkit.Core.Fill.{discounted}
use arbkit.Engine.Slab.{EngineSlab, MarketConfig, get_book, max_venues}
use arbkit.Engine.Aggregator.{
  ChunkCandidate, level_candidates, book_candidates, venue_candidates, outcome_candidates,
}

-- What the source keeps of a level's size at a venue.
abbrev pub surviving : MarketConfig → ℕ → ℤ → ℤ
surviving config venue size =
    discounted (record { survival_bps = get_or config.venue_survival_bps venue 0 }) size

pub record Quoted (slab : EngineSlab) (config : MarketConfig) (market : ℕ) (c : ChunkCandidate)
    : Type 0 where
  pub venue_range : c.venue < max_venues
  pub book : OutcomeBook
  pub held : get_book market c.outcome c.venue slab ≡ some book
  pub level : Level
  pub index : ℕ
  pub live : get_elem? (live_levels book) index ≡ some level
  pub priced : c.price ≡ level.price
  pub raw : c.raw_size ≡ level.size
  pub sized : c.size ≡ surviving config c.venue level.size
  pub alive : leb_ℤ c.size (pos 0) ≡ false
  pub ranked : c.eff_ppm ≡ (effective (get_or config.venue_fees c.venue free) c.price).ppm

module _ (slab : EngineSlab) (config : MarketConfig) (market : ℕ) where
  level_candidates-Quoted :
      (o v : ℕ) (book : OutcomeBook) (k : ℕ) (ls : List Level)
      → v < max_venues
      → get_book market o v slab ≡ some book
      → ((i : ℕ) (l : Level)
          → get_elem? ls i ≡ some l
          → get_elem? (live_levels book) (k + i) ≡ some l)
      → All (Quoted slab config market) (level_candidates config o v ls)
  unfolding level_candidates
  level_candidates-Quoted o v book k [] lt at sub = tt
  level_candidates-Quoted o v book k (l ∷ ls) lt at sub =
      let rest =
        level_candidates-Quoted o v book (suc k) ls lt at
          (λ i x e. ap (λ j. get_elem? (live_levels book) j) (omega arith) ∙ sub (suc i) x e) in
      elim (Bool-cases (leb_ℤ (surviving config v l.size) (pos 0))) [
        | inl gone ↦ rw (gone, level_candidates) rest
        | inr alive ↦
            rw (alive, level_candidates)
              (
                record {
                  venue_range = lt;
                  book = book;
                  held = at;
                  level = l;
                  index = k + 0;
                  live = sub 0 l refl;
                  priced = refl;
                  raw = refl;
                  sized = refl;
                  alive = alive;
                  ranked = refl;
                },
                rest,
              )
      ]

  book_candidates-Quoted :
      (o v : ℕ)
      → v < max_venues
      → All (Quoted slab config market) (book_candidates slab config market o v)
  unfolding book_candidates
  book_candidates-Quoted o v lt = elim (Option-cases (get_book market o v slab)) [
    | inl none_ ↦ rw (none_, book_candidates) tt
    | inr (book, at) ↦
        rw (at, book_candidates)
          (level_candidates-Quoted o v book 0 (live_levels book) lt at
            (λ i l e. ap (λ j. get_elem? (live_levels book) j) (omega arith) ∙ e))
  ]

  venue_candidates-Quoted :
      (o n v : ℕ)
      → v + n ≤ max_venues
      → All (Quoted slab config market) (venue_candidates slab config market o n v)
  unfolding venue_candidates
  venue_candidates-Quoted o zero v h = tt
  venue_candidates-Quoted o (suc n) v h =
      All-append (Quoted slab config market) (book_candidates slab config market o v)
        (venue_candidates slab config market o n (suc v)) (book_candidates-Quoted o v (omega arith))
        (venue_candidates-Quoted o n (suc v) (omega arith))

  pub outcome_candidates-Quoted :
      (n o : ℕ) → All (Quoted slab config market) (outcome_candidates slab config market n o)
  unfolding outcome_candidates
  outcome_candidates-Quoted zero o = tt
  outcome_candidates-Quoted (suc n) o =
      All-append (Quoted slab config market) (venue_candidates slab config market o max_venues 0)
        (outcome_candidates slab config market n (suc o))
        (venue_candidates-Quoted o max_venues 0 (omega arith)) (outcome_candidates-Quoted n (suc o))
