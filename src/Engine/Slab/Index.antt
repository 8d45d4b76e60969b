-- ===== src/Engine/Slab/Index.antt =====
-- The layout of the slab and its reads and writes (crates/arbkit-engine/src/slab.rs).
use arbkit.Prelude.{
  ℕ, ◌+◌, ◌*◌, ◌≤◌, ◌<◌, ◌≡◌, ◌≢◌, ◌⊎◌, refl, ap, ◌∙◌, true, some, length, set, arith, leb,
  leb-false, leb→le, lt→ltb, Bool-cases, Option-cases, inl, inr, length-set, length-replicate,
  get_or-set_self, get_or-set_ne, Checked, accepted, rejected, not, ◌&&◌,
}
use arbkit.Core.Error.{leg_count_out_of_range}
use arbkit.Core.Book.{OutcomeBook, new}
use arbkit.Engine.Slab.{
  EngineSlab, MarketConfig, max_outcomes, max_venues, new_slab, flat_index, register_market,
  get_config, EngineError, get_book, set_book, market_out_of_range, core,
}

-- The arrays have the sizes that the capacity asks for.
pub record IsSlab (s : EngineSlab) : Type 0 where
  pub books : length s.books ≡ s.max_markets * max_outcomes * max_venues
  pub configs : length s.configs ≡ s.max_markets
  pub emits : length s.last_emit_ns ≡ s.max_markets

pub new_slab-IsSlab : (n : ℕ) → IsSlab (new_slab n)
unfolding new_slab
new_slab-IsSlab n = record {
  books = length-replicate (n * max_outcomes * max_venues) new;
  configs = length-replicate n _;
  emits = length-replicate n 0;
}

flat_index-some :
    (n m o v i : ℕ)
    → flat_index n m o v ≡ some i
    → (m < n)
      × (o < max_outcomes)
      × (v < max_venues)
      × (i ≡ (m * max_outcomes + o) * max_venues + v)
unfolding flat_index
flat_index-some n m o v i e = ground arith

-- Two places with one index are one place, and every index is inside the array of books.
pub flat_index_injective :
    (n m o v m' o' v' i : ℕ)
    → flat_index n m o v ≡ some i
    → flat_index n m' o' v' ≡ some i
    → (m ≡ m') × (o ≡ o') × (v ≡ v') × (i < n * max_outcomes * max_venues)
flat_index_injective n m o v m' o' v' i e e' =
    let (a, b, c, d) = flat_index-some n m o v i e in
    let (a', b', c', d') = flat_index-some n m' o' v' i e' in
    (omega arith, omega arith, omega arith, omega arith)

apart_index :
    (n m o v m' o' v' i j : ℕ)
    → flat_index n m o v ≡ some i
    → flat_index n m' o' v' ≡ some j
    → ((m ≢ m') ⊎ (o ≢ o') ⊎ (v ≢ v'))
    → i ≢ j
apart_index n m o v m' o' v' i j e e' apart q =
    let (a, b, c, lt) = flat_index_injective n m o v m' o' v' i e (rw (← q) at e') in
    elim apart [ inl ne ↦ ne a | inr rest ↦ elim rest [ inl ne ↦ ne b | inr ne ↦ ne c ] ]

-- A book that is written is read back at its place, and every other place keeps its book.
pub get_book-set_book :
    (m o v m' o' v' : ℕ) (book : OutcomeBook) (s s' : EngineSlab)
    → IsSlab s
    → set_book m o v book s ≡ some s'
    → (get_book m o v s' ≡ some book)
      × (((m ≢ m') ⊎ (o ≢ o') ⊎ (v ≢ v')) → get_book m' o' v' s' ≡ get_book m' o' v' s)
unfolding set_book get_book
get_book-set_book m o v m' o' v' book s s' h e =
    elim (Option-cases (flat_index s.max_markets m o v)) [
      | inl out ↦ cc (rw (out, set_book) at e)
      | inr (i, found) ↦
          let e' : some (record s { books = set s.books i book }) ≡ some s' =
            rw (found, set_book) at e in
          let q : record s { books = set s.books i book } ≡ s' = cc in
          let (a, b, c, lt) = flat_index_injective s.max_markets m o v m o v i found found in
          rw (← q) (
            rw (found, get_book)
                (ap some (get_or-set_self s.books i book new (omega (arith, lt, h.books)))),
            (λ apart. elim (Option-cases (flat_index s.max_markets m' o' v')) [
              | inl out ↦ rw (out, get_book) refl
              | inr (j, there) ↦
                  rw (there, get_book)
                    (ap some (
                      get_or-set_ne s.books i j book new
                        (apart_index s.max_markets m o v m' o' v' i j found there apart)))
            ]),
          )
    ]

-- What a registration returns, and why.
abbrev pub Registered : ℕ → MarketConfig → EngineSlab → Checked EngineError EngineSlab → Type 0
Registered m config s (accepted s') =
    IsSlab s'
    × (m < s.max_markets)
    × (2 ≤ config.outcome_count)
    × (config.outcome_count ≤ 4)
    × (get_config m s' ≡ some config)
Registered m config s (rejected e) =
    ((e ≡ market_out_of_range m s.max_markets) × (s.max_markets ≤ m))
    ⊎ ((e ≡ core (leg_count_out_of_range config.outcome_count))
        × ((config.outcome_count < 2) ⊎ (4 < config.outcome_count)))

outside : (n : ℕ) → not (leb 2 n && leb n 4) ≡ true → (n < 2) ⊎ (4 < n)
outside n h = elim (Bool-cases (leb 2 n)) [
  | inl enough ↦ inr (ground arith)
  | inr few ↦ inl (leb-false _ _ few)
]

-- Registering a market keeps the sizes of the arrays and is read back; it fails only for a market
-- beyond the capacity or a number of outcomes other than two, three or four, which the error names.
pub register_market-Registered :
    (m : ℕ) (config : MarketConfig) (s : EngineSlab)
    → IsSlab s
    → Registered m config s (register_market m config s)
unfolding register_market get_config
register_market-Registered m config s h = elim (Bool-cases (leb s.max_markets m)) [
  | inl out ↦ rw out (inl (refl, leb→le _ _ out))
  | inr in_range ↦
      elim (Bool-cases (not (leb 2 config.outcome_count && leb config.outcome_count 4))) [
        | inl bad ↦ rw (in_range, bad) (inr (refl, outside config.outcome_count bad))
        | inr good ↦
            let lt = leb-false _ _ in_range in
            rw (in_range, good)
              (
                record {
                  books = h.books;
                  configs = length-set s.configs m config ∙ h.configs;
                  emits = h.emits;
                },
                lt,
                ground arith,
                ground arith,
                rw (lt→ltb m s.max_markets lt)
                    (ap some (get_or-set_self s.configs m config _ (omega (arith, lt, h.configs)))),
              )
      ]
]
