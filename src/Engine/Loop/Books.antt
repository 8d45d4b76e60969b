-- ===== src/Engine/Loop/Books.antt =====
-- The books of the slab under the events of the feed (crates/arbkit-engine/src/engine.rs).
use arbkit.Prelude.{
  ℕ, zero, suc, ◌+◌, ◌%◌, ◌^◌, ◌==◌, not, ◌&&◌, ◌||◌, ◌≡◌, refl, sym, ◌∙◌, subst, Bool, true, false,
  none, some, List, [], ◌∷◌, Checked, accepted, length, take, drop, min, get_or, set, All, All-take,
  All-append, All-set, All-get_or, All-replicate, arith, leb, Bool-cases, Option-cases, inl, inr,
  length-set, if◌then◌else◌,
}
use arbkit.Prelude.Int.{pos, ◌≤ℤ◌, i64_max}
use arbkit.Core.Price.{IsProb}
use arbkit.Core.Book.{
  Level, OutcomeBook, max_levels, new, insert_level, sort_levels, apply_snapshot, accept_seq,
  mark_stale,
}
use arbkit.Core.Book.Invariant.{
  IsValid, new-IsValid, snapshot-IsValid, accept_seq-IsValid, mark_stale-IsValid,
}
use arbkit.Feed.Event.{FeedEvent, snapshot, delta, trade, heartbeat, halt, IsEvent, IsLevel}
use arbkit.Engine.Slab.{
  EngineSlab, EngineError, MarketConfig, default_market, new_slab, flat_index, register_market,
  get_book, set_book, max_outcomes,
}
use arbkit.Engine.Slab.Index.{IsSlab, new_slab-IsSlab}
use arbkit.Engine.Loop.{update_book, apply_delta, halt_outcomes, apply_event}

-- A book that keeps its invariant, with a valid price on every level of its array.
abbrev pub IsBook : OutcomeBook → Type 0
IsBook b = IsValid b × All (λ level. IsProb level.price) b.levels

-- The slab of a running engine: the arrays have their sizes, every book is one, and every budget is a
-- 64-bit number.
pub record IsRunning (s : EngineSlab) : Type 0 where
  pub sized : IsSlab s
  pub books : All IsBook s.books
  pub budgets : All (λ config. config.budget ≤ℤ pos i64_max) s.configs

abbrev AllProb : List Level → Type 0
AllProb levels = All (λ level. IsProb level.price) levels

All-drop : (n : ℕ) (ls : List Level) → AllProb ls → AllProb (drop n ls)
All-drop zero ls h = h
All-drop (suc n) [] h = tt
All-drop (suc n) (l ∷ ls) (h, hs) = All-drop n ls hs

insert_level-AllProb :
    (x : Level) (ls : List Level) → IsProb x.price → AllProb ls → AllProb (insert_level x ls)
unfolding insert_level
insert_level-AllProb x [] h hs = (h, tt)
insert_level-AllProb x (y ∷ ys) h (k, ks) = elim (Bool-cases (leb x.price.ppm y.price.ppm)) [
  | inl before ↦ rw before (h, (k, ks))
  | inr after ↦ rw after (k, insert_level-AllProb x ys h ks)
]

sort_levels-AllProb : (ls : List Level) → AllProb ls → AllProb (sort_levels ls)
unfolding sort_levels
sort_levels-AllProb [] h = tt
sort_levels-AllProb (x ∷ xs) (h, hs) =
    insert_level-AllProb x (sort_levels xs) h (sort_levels-AllProb xs hs)

apply_snapshot-IsBook :
    (ls : List Level) (seq : ℕ) (b : OutcomeBook)
    → AllProb ls
    → IsBook b
    → IsBook (apply_snapshot ls seq b)
unfolding apply_snapshot
apply_snapshot-IsBook ls seq b h (v, p) =
    let n = min (length ls) max_levels in
    (
      snapshot-IsValid ls seq b v,
      All-append (λ level. IsProb level.price) (sort_levels (take n ls)) (drop n b.levels)
          (sort_levels-AllProb (take n ls) (All-take (λ level. IsProb level.price) n ls h))
          (All-drop n b.levels p),
    )

mark_stale-IsBook : (b : OutcomeBook) → IsBook b → IsBook (mark_stale b)
unfolding mark_stale
mark_stale-IsBook b (v, p) = (mark_stale-IsValid b v, p)

accept_seq-levels : (seq : ℕ) (b : OutcomeBook) → (accept_seq seq b).0.levels ≡ b.levels
unfolding accept_seq
accept_seq-levels seq b = elim (Bool-cases (b.stale || not (seq == (b.last_seq + 1) % 2 ^ 64))) [
  | inl e ↦ rw e refl
  | inr e ↦ rw e refl
]

IsBook-if : (c : Bool) (x y : OutcomeBook) → IsBook x → IsBook y → IsBook (if c then x else y)
IsBook-if true x y h k = h
IsBook-if false x y h k = k

accept_seq-IsBook : (seq : ℕ) (b : OutcomeBook) → IsBook b → IsBook (accept_seq seq b).0
accept_seq-IsBook seq b (v, p) =
    (accept_seq-IsValid seq b v, subst AllProb (sym (accept_seq-levels seq b)) p)

apply_delta-IsBook :
    (seq : ℕ) (l : Level) (d : Bool) (b : OutcomeBook)
    → IsProb l.price
    → IsBook b
    → IsBook (apply_delta seq l d b)
unfolding apply_delta
apply_delta-IsBook seq l d b h k =
    let b' = (accept_seq seq b).0 in
    let k' = accept_seq-IsBook seq b k in
    IsBook-if (accept_seq seq b).1 _ b'
      (IsBook-if d _ _ (apply_snapshot-IsBook [] seq b' tt k')
        (apply_snapshot-IsBook (l ∷ []) seq b' (h, tt) k'))
      k'

-- A change of one book that keeps books keeps the slab, and what is not a book stays as it is.
pub record Updated (s s' : EngineSlab) : Type 0 where
  pub running : IsRunning s'
  pub same_configs : s'.configs ≡ s.configs
  pub same_emits : s'.last_emit_ns ≡ s.last_emit_ns
  pub same_size : s'.max_markets ≡ s.max_markets

unchanged : (s : EngineSlab) → IsRunning s → Updated s s
unchanged s h = record { running = h; same_configs = refl; same_emits = refl; same_size = refl }

Updated-trans : (s t u : EngineSlab) → Updated s t → Updated t u → Updated s u
Updated-trans s t u h k = record {
  running = k.running;
  same_configs = k.same_configs ∙ h.same_configs;
  same_emits = k.same_emits ∙ h.same_emits;
  same_size = k.same_size ∙ h.same_size;
}

new-IsBook : IsBook new
unfolding new
new-IsBook = (new-IsValid, ground arith)

update_book-found :
    (m o v i : ℕ) (f : OutcomeBook → OutcomeBook) (s : EngineSlab)
    → flat_index s.max_markets m o v ≡ some i
    → update_book m o v f s ≡ record s { books = set s.books i (f (get_or s.books i new)) }
unfolding update_book get_book set_book
update_book-found m o v i f s found =
    let got : get_book m o v s ≡ some (get_or s.books i new) = rw (found, get_book) refl in
    let put : set_book m o v (f (get_or s.books i new)) s
        ≡ some (record s { books = set s.books i (f (get_or s.books i new)) }) =
      rw (found, set_book) refl in
    rw (got, update_book, put) refl

update_book-Updated :
    (m o v : ℕ) (f : OutcomeBook → OutcomeBook) (s : EngineSlab)
    → ((b : OutcomeBook) → IsBook b → IsBook (f b))
    → IsRunning s
    → Updated s (update_book m o v f s)
unfolding update_book get_book set_book
update_book-Updated m o v f s keeps h = elim (Option-cases (flat_index s.max_markets m o v)) [
  | inl out ↦ rw (out, update_book) (unchanged s h)
  | inr (i, found) ↦
      let book = get_or s.books i new in
      let kept = keeps book (All-get_or IsBook s.books i new h.books new-IsBook) in
      rw (update_book-found m o v i f s found) (record {
        running = record {
          sized = record {
            books = length-set s.books i (f book) ∙ h.sized.books;
            configs = h.sized.configs;
            emits = h.sized.emits;
          };
          books = All-set IsBook s.books i (f book) h.books kept;
          budgets = h.budgets;
        };
        same_configs = refl;
        same_emits = refl;
        same_size = refl;
      })
]

halt_outcomes-Updated :
    (m v n o : ℕ) (s : EngineSlab) → IsRunning s → Updated s (halt_outcomes m v n o s)
unfolding halt_outcomes
halt_outcomes-Updated m v zero o s h = unchanged s h
halt_outcomes-Updated m v (suc n) o s h =
    let t = update_book m o v mark_stale s in
    let k = update_book-Updated m o v mark_stale s mark_stale-IsBook h in
    Updated-trans s t (halt_outcomes m v n (suc o) t) k
      (halt_outcomes-Updated m v n (suc o) t k.running)

-- Any event that the types of the source can hold leaves a running slab running, and changes nothing but
-- its books.
pub apply_event-Updated :
    (e : FeedEvent) (s : EngineSlab) → IsEvent e → IsRunning s → Updated s (apply_event e s)
unfolding apply_event
apply_event-Updated (snapshot v m o seq t levels num) s (h, hl, full) k =
    let ls = take (min num max_levels) levels in
    update_book-Updated m o v (apply_snapshot ls seq) s
      (λ b.
        apply_snapshot-IsBook ls seq b
          (prices ls (All-take IsLevel (min num max_levels) levels hl)))
      k
  where
    prices : (ls : List Level) → All IsLevel ls → AllProb ls
    prices [] h = tt
    prices (l ∷ ls) (h, hs) = (h.0, prices ls hs)
apply_event-Updated (delta v m o seq t l d) s (h, hl) k =
    update_book-Updated m o v (apply_delta seq l d) s (λ b. apply_delta-IsBook seq l d b hl.0) k
apply_event-Updated (trade v m o seq t p a side) s h k = unchanged s k
apply_event-Updated (heartbeat v t) s h k = unchanged s k
apply_event-Updated (halt v m (some o) t r) s h k =
    update_book-Updated m o v mark_stale s mark_stale-IsBook k
apply_event-Updated (halt v m none t r) s h k = halt_outcomes-Updated m v max_outcomes 0 s k

pub new_slab-IsRunning : (n : ℕ) → IsRunning (new_slab n)
unfolding new_slab
new_slab-IsRunning n = record {
  sized = new_slab-IsSlab n;
  books = All-replicate IsBook _ new new-IsBook;
  budgets = All-replicate (λ config. config.budget ≤ℤ pos i64_max) n default_market (omega arith);
}

pub register_market-IsRunning :
    (m : ℕ) (config : MarketConfig) (s s' : EngineSlab)
    → config.budget ≤ℤ pos i64_max
    → IsRunning s
    → register_market m config s ≡ accepted s'
    → IsRunning s'
unfolding register_market
register_market-IsRunning m config s s' b h e = elim (Bool-cases (leb s.max_markets m)) [
  | inl out ↦ cc (rw (out, register_market) at e)
  | inr in_range ↦
      elim (Bool-cases (not (leb 2 config.outcome_count && leb config.outcome_count 4))) [
        | inl bad ↦ cc (rw (in_range, bad, register_market) at e)
        | inr good ↦
            let e' : Path (Checked EngineError EngineSlab)
                (accepted (record s { configs = set s.configs m config })) (accepted s') =
              rw (in_range, good, register_market) at e in
            let q : record s { configs = set s.configs m config } ≡ s' = cc in
            rw (← q) (record {
              sized = record {
                books = h.sized.books;
                configs = length-set s.configs m config ∙ h.sized.configs;
                emits = h.sized.emits;
              };
              books = h.books;
              budgets = All-set (λ c. c.budget ≤ℤ pos i64_max) s.configs m config h.budgets b;
            })
      ]
]
