-- ===== src/Engine/Ring/FeedSlot.antt =====
-- crates/arbkit-engine/src/event.rs, `FeedEventSlot`: an event in the atomic fields of a slot of the ring, and
-- read back. The fields that an event does not have keep what an earlier event left in them.
use arbkit.Prelude.{
  ℕ, zero, suc, ◌≡◌, refl, sym, ap, ap₂, ◌∙◌, Bool, true, false, not, none, some, List, [], ◌∷◌,
  ◌++◌, map, length, take, drop, get_or, set, min, All, All-take, arith, length-take, ◌==◌,
  if◌then◌else◌,
}
use arbkit.Prelude.Int.{ℤ, pos}
use arbkit.Core.Error.{unwrap_or}
use arbkit.Core.Price.{Prob, IsProb, certain, from_ppm}
use arbkit.Core.Book.{Level, max_levels}
use arbkit.Feed.Event.{
  FeedEvent, snapshot, delta, trade, heartbeat, halt, TradeSide, unknown, buy, sell, side_from_u8,
  side_to_u8, level_buffer, IsEvent, IsLevel,
}

pub record FeedEventSlot : Type 0 where
  pub kind : ℕ
  pub market_id : ℕ
  pub outcome_id : ℕ
  pub venue_id : ℕ
  pub num_levels : ℕ
  pub seq : ℕ
  pub timestamp_ns : ℕ
  pub level_prices : List ℕ
  pub level_sizes : List ℤ
  pub extra_flags : ℕ

abbrev pub ppm_of : Level → ℕ
ppm_of level = level.price.ppm

abbrev pub size_of : Level → ℤ
size_of level = level.size

-- The stores into the first entries of an array.
abbrev pub overwrite {ℓ} : {A : Type ℓ} → List A → List A → List A
overwrite new_ old = new_ ++ drop (length new_) old

unfoldable pub store_event : FeedEvent → FeedEventSlot → FeedEventSlot
unfolding side_to_u8
store_event (snapshot venue market outcome seq time levels num_levels) slot =
    let kept = take (min num_levels max_levels) levels in
    record slot {
      venue_id = venue;
      market_id = market;
      outcome_id = outcome;
      num_levels = num_levels;
      seq = seq;
      timestamp_ns = time;
      level_prices = overwrite (map ppm_of kept) slot.level_prices;
      level_sizes = overwrite (map size_of kept) slot.level_sizes;
      extra_flags = 0;
      kind = 1;
    }
store_event (delta venue market outcome seq time level is_delete) slot = record slot {
  venue_id = venue;
  market_id = market;
  outcome_id = outcome;
  num_levels = 1;
  seq = seq;
  timestamp_ns = time;
  level_prices = set slot.level_prices 0 level.price.ppm;
  level_sizes = set slot.level_sizes 0 level.size;
  extra_flags = if is_delete then 1 else 0;
  kind = 2;
}
store_event (trade venue market outcome seq time price size side) slot = record slot {
  venue_id = venue;
  market_id = market;
  outcome_id = outcome;
  num_levels = 1;
  seq = seq;
  timestamp_ns = time;
  level_prices = set slot.level_prices 0 price.ppm;
  level_sizes = set slot.level_sizes 0 size;
  extra_flags = side_to_u8 side;
  kind = 3;
}
store_event (heartbeat venue time) slot = record slot {
  venue_id = venue;
  timestamp_ns = time;
  kind = 4;
}
store_event (halt venue market (some outcome) time reason) slot = record slot {
  venue_id = venue;
  market_id = market;
  outcome_id = outcome;
  extra_flags = 1;
  num_levels = reason;
  timestamp_ns = time;
  kind = 5;
}
store_event (halt venue market none time reason) slot = record slot {
  venue_id = venue;
  market_id = market;
  outcome_id = 0;
  extra_flags = 0;
  num_levels = reason;
  timestamp_ns = time;
  kind = 5;
}

abbrev pub load_price : ℕ → Prob
load_price ppm = unwrap_or (from_ppm ppm) certain

unfoldable pub load_levels : ℕ → List ℕ → List ℤ → List Level
load_levels zero prices sizes = []
load_levels (suc n) [] sizes = []
load_levels (suc n) (p ∷ ps) [] = []
load_levels (suc n) (p ∷ ps) (s ∷ ss) =
    record { price = load_price p; size = s } ∷ load_levels n ps ss

unfoldable pub load_event : FeedEventSlot → FeedEvent
unfolding load_levels side_from_u8
load_event slot =
    let price = load_price (get_or slot.level_prices 0 0) in
    let size = get_or slot.level_sizes 0 (pos 0) in
    if slot.kind == 1
    then snapshot slot.venue_id slot.market_id slot.outcome_id slot.seq slot.timestamp_ns
        (level_buffer
          (load_levels (min slot.num_levels max_levels) slot.level_prices slot.level_sizes))
        slot.num_levels
    else if slot.kind == 2
    then delta slot.venue_id slot.market_id slot.outcome_id slot.seq slot.timestamp_ns
        (record { price = price; size = size }) (not (slot.extra_flags == 0))
    else if slot.kind == 3
    then trade slot.venue_id slot.market_id slot.outcome_id slot.seq slot.timestamp_ns price size
        (side_from_u8 slot.extra_flags)
    else if slot.kind == 5
    then halt slot.venue_id slot.market_id
        (if slot.extra_flags == 0 then none else some slot.outcome_id) slot.timestamp_ns
        slot.num_levels
    else heartbeat slot.venue_id slot.timestamp_ns

-- The event with the levels of a snapshot past its count blank.
abbrev pub as_loaded : FeedEvent → FeedEvent
as_loaded (snapshot venue market outcome seq time levels num_levels) =
    snapshot venue market outcome seq time (level_buffer (take (min num_levels max_levels) levels))
      num_levels
as_loaded (delta venue market outcome seq time level is_delete) =
    delta venue market outcome seq time level is_delete
as_loaded (trade venue market outcome seq time price size side) =
    trade venue market outcome seq time price size side
as_loaded (heartbeat venue time) = heartbeat venue time
as_loaded (halt venue market outcome time reason) = halt venue market outcome time reason

-- The arrays of a slot have their sizes.
pub record IsSlot (slot : FeedEventSlot) : Type 0 where
  pub prices : length slot.level_prices ≡ max_levels
  pub sizes : length slot.level_sizes ≡ max_levels

pub load_price_back : (p : Prob) → IsProb p → load_price p.ppm ≡ p
unfolding from_ppm
load_price_back p h = ground (arith, h)

load_levels_back :
    (ls : List Level) (ps : List ℕ) (ss : List ℤ)
    → All IsLevel ls
    → load_levels (length ls) (map ppm_of ls ++ ps) (map size_of ls ++ ss) ≡ ls
unfolding load_levels
load_levels_back [] ps ss h = refl
load_levels_back (l ∷ ls) ps ss (h, hs) =
    ap₂ (λ p rest. record { price = p; size = l.size } ∷ rest) (load_price_back l.price h.0)
      (load_levels_back ls ps ss hs)

first_set {ℓ} :
    {A : Type ℓ} (xs : List A) (n : ℕ) (v d : A) → length xs ≡ suc n → get_or (set xs 0 v) 0 d ≡ v
first_set [] n v d h = absurd (omega arith)
first_set (x ∷ xs) n v d h = refl

flag_read : (b : Bool) → not ((if b then 1 else 0) == 0) ≡ b
flag_read true = refl
flag_read false = refl

side_read : (s : TradeSide) → side_from_u8 (side_to_u8 s) ≡ s
unfolding side_from_u8 side_to_u8
side_read unknown = refl
side_read buy = refl
side_read sell = refl

-- An event that the types of the source can hold, stored in a slot whatever the slot held before, is the
-- event that is loaded from it, but for the levels of a snapshot past its count, which are blank.
pub load_event-store_event :
    (e : FeedEvent) (slot : FeedEventSlot)
    → IsSlot slot
    → IsEvent e
    → load_event (store_event e slot) ≡ as_loaded e
unfolding load_event store_event
load_event-store_event (snapshot v m o s t levels num) slot i (h, hl, full) =
    let k = min num max_levels in
    let ls = take k levels in
    let size : length ls ≡ k = omega (arith, length-take k levels, full) in
    let back =
      load_levels_back ls (drop (length (map ppm_of ls)) slot.level_prices)
        (drop (length (map size_of ls)) slot.level_sizes) (All-take IsLevel k levels hl) in
    ap
      (λ n.
        snapshot v m o s t
          (level_buffer (
            load_levels n (overwrite (map ppm_of ls) slot.level_prices)
              (overwrite (map size_of ls) slot.level_sizes)))
          num)
      (sym size)
    ∙ ap (λ x. snapshot v m o s t (level_buffer x) num) back
load_event-store_event (delta v m o s t l d) slot i (h, hl) =
    ap₂
      (λ p a.
        delta v m o s t (record { price = load_price p; size = a })
          (not ((if d then 1 else 0) == 0)))
      (first_set slot.level_prices 7 l.price.ppm 0 i.prices)
      (first_set slot.level_sizes 7 l.size (pos 0) i.sizes)
    ∙ ap₂ (λ p b. delta v m o s t (record { price = p; size = l.size }) b)
        (load_price_back l.price hl.0) (flag_read d)
load_event-store_event (trade v m o s t p a side) slot i (h, hp, ha) =
    ap₂ (λ x b. trade v m o s t (load_price x) b (side_from_u8 (side_to_u8 side)))
      (first_set slot.level_prices 7 p.ppm 0 i.prices)
      (first_set slot.level_sizes 7 a (pos 0) i.sizes)
    ∙ ap₂ (λ x b. trade v m o s t x a b) (load_price_back p hp) (side_read side)
load_event-store_event (heartbeat v t) slot i h = refl
load_event-store_event (halt v m (some o) t r) slot i h = refl
load_event-store_event (halt v m none t r) slot i h = refl
