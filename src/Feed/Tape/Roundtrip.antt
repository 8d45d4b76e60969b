-- ===== src/Feed/Tape/Roundtrip.antt =====
-- The records of a tape, written and read back (crates/arbkit-feed/src/tape/format.rs).
use arbkit.Prelude.{
  ℕ, ◌+◌, ◌*◌, ◌^◌, ◌≤◌, ◌<◌, ◌≡◌, refl, sym, ap, ap₂, ◌∙◌, Bool, true, false, not, Option, none,
  some, List, [], ◌∷◌, ◌++◌, Checked, accepted, rejected, length, take, min, All, All-take, arith,
  ltb, ◌==◌, if◌then◌else◌, length-append, length-take,
}
use arbkit.Prelude.Int.{ℤ, IsI64}
use arbkit.Core.Price.{Prob, IsProb, from_ppm}
use arbkit.Core.Book.{Level, max_levels}
use arbkit.Feed.Event.{
  IsEvent, IsLevel, IsPlace, FeedEvent, snapshot, delta, trade, heartbeat, halt, side_from_u8,
  side_to_u8, FeedError, level_buffer, TradeSide, unknown, buy, sell,
}
use arbkit.Feed.Tape.Bytes.{
  le_bytes, from_le, to_bits, from_bits, from_le-le_bytes, from_bits-to_bits, to_bits-lt,
}
use arbkit.Feed.Tape.Format.{
  record_bytes, levels_bytes, price_of, decode_levels, decode_event, decode_snapshot, decode_delta,
  decode_trade, decode_heartbeat, decode_halt, flag, place_bytes,
}

-- The event with the unused levels of a snapshot blank, and its count held to the array.
abbrev pub canonical : FeedEvent → FeedEvent
canonical (snapshot venue market outcome seq time levels num_levels) =
    snapshot venue market outcome seq time (level_buffer (take (min num_levels max_levels) levels))
      (min num_levels max_levels)
canonical (delta venue market outcome seq time level is_delete) =
    delta venue market outcome seq time level is_delete
canonical (trade venue market outcome seq time price size side) =
    trade venue market outcome seq time price size side
canonical (heartbeat venue time) = heartbeat venue time
canonical (halt venue market outcome time reason) = halt venue market outcome time reason

pub if_ltb-ge {ℓ} : {A : Type ℓ} (a b : ℕ) (x y : A) → b ≤ a → (if ltb a b then x else y) ≡ y
if_ltb-ge a b x y h = ground arith

price_of-ok : (p : Prob) → IsProb p → price_of (from_le (le_bytes 4 p.ppm)) ≡ accepted p
unfolding from_ppm
price_of-ok p h =
    let e : from_le (le_bytes 4 p.ppm) ≡ p.ppm = from_le-le_bytes 4 p.ppm (omega (arith, h)) in
    ap price_of e ∙ ground (arith, h)

size_back : (a : ℤ) → IsI64 a → from_bits (from_le (le_bytes 8 (to_bits a))) ≡ a
size_back a h = ap from_bits (from_le-le_bytes 8 (to_bits a) (to_bits-lt a)) ∙ from_bits-to_bits a h

flag_back : (b : Bool) → not (flag b == 0) ≡ b
flag_back true = refl
flag_back false = refl

side_back : (s : TradeSide) → side_from_u8 (side_to_u8 s) ≡ s
unfolding side_from_u8 side_to_u8
side_back unknown = refl
side_back buy = refl
side_back sell = refl

place_back {ℓ} :
    {A : Type ℓ} (f : ℕ → ℕ → ℕ → ℕ → ℕ → A) (v m o s t : ℕ)
    → IsPlace v m o s t
    → f
        (from_le (le_bytes 2 v))
        (from_le (le_bytes 4 m))
        (from_le (le_bytes 4 o))
        (from_le (le_bytes 8 s))
        (from_le (le_bytes 8 t))
      ≡ f v m o s t
place_back f v m o s t (hv, hm, ho, hs, ht) =
    ap
      (λ x.
        f x (from_le (le_bytes 4 m)) (from_le (le_bytes 4 o)) (from_le (le_bytes 8 s))
          (from_le (le_bytes 8 t)))
      (from_le-le_bytes 2 v hv)
    ∙ ap (λ x. f v x (from_le (le_bytes 4 o)) (from_le (le_bytes 8 s)) (from_le (le_bytes 8 t)))
        (from_le-le_bytes 4 m hm)
    ∙ ap (λ x. f v m x (from_le (le_bytes 8 s)) (from_le (le_bytes 8 t))) (from_le-le_bytes 4 o ho)
    ∙ ap₂ (λ x y. f v m o x y) (from_le-le_bytes 8 s hs) (from_le-le_bytes 8 t ht)

-- A result that is read, and what is done with it.
abbrev and_then {ℓ κ} :
    {A : Type ℓ} {B : Type κ}
    → Checked FeedError A
    → (A → Checked FeedError B)
    → Checked FeedError B
and_then c k = elim c [ rejected e ↦ rejected e | accepted p ↦ k p ]

decode_levels-levels_bytes :
    (ls : List Level) (rest : List ℕ)
    → All IsLevel ls
    → decode_levels (length ls) (levels_bytes ls ++ rest) ≡ accepted ls
unfolding decode_levels levels_bytes
decode_levels-levels_bytes [] rest h = refl
decode_levels-levels_bytes (l ∷ ls) rest ((hp, hs), h) =
    let size = from_bits (from_le (le_bytes 8 (to_bits l.size))) in
    ap
      (λ c. and_then c (λ p.
        and_then (decode_levels (length ls) (levels_bytes ls ++ rest))
          (λ ls'. accepted (record { price = p; size = size } ∷ ls'))))
      (price_of-ok l.price hp)
    ∙ ap (λ c. and_then c (λ ls'. accepted (record { price = l.price; size = size } ∷ ls')))
        (decode_levels-levels_bytes ls rest h)
    ∙ ap (λ x. accepted (record { price = l.price; size = x } ∷ ls)) (size_back l.size hs)

heartbeat_back :
    (v t : ℕ) (rest : List ℕ)
    → v < 2 ^ 16
    → t < 2 ^ 64
    → decode_event (record_bytes (heartbeat v t) ++ rest) ≡ accepted (heartbeat v t, 11)
unfolding decode_event decode_heartbeat record_bytes
heartbeat_back v t rest hv ht =
    if_ltb-ge (length (record_bytes (heartbeat v t) ++ rest)) 11 _ _ (omega arith)
    ∙ ap₂ (λ x y. accepted (heartbeat x y, 11)) (from_le-le_bytes 2 v hv) (from_le-le_bytes 8 t ht)

delta_back :
    (v m o s t : ℕ) (l : Level) (d : Bool) (rest : List ℕ)
    → IsPlace v m o s t
    → IsLevel l
    → decode_event (record_bytes (delta v m o s t l d) ++ rest) ≡ accepted (delta v m o s t l d, 40)
unfolding decode_event decode_delta record_bytes
delta_back v m o s t l d rest h (hp, hs) =
    let size = from_bits (from_le (le_bytes 8 (to_bits l.size))) in
    if_ltb-ge (length (record_bytes (delta v m o s t l d) ++ rest)) 40 _ _ (omega arith)
    ∙ ap
        (λ c. and_then c (λ p. accepted (
          delta (from_le (le_bytes 2 v)) (from_le (le_bytes 4 m)) (from_le (le_bytes 4 o))
              (from_le (le_bytes 8 s)) (from_le (le_bytes 8 t)) (record { price = p; size = size })
              (not (flag d == 0)),
          40,
        )))
        (price_of-ok l.price hp)
    ∙ place_back
        (λ v' m' o' s' t'.
          accepted (
            delta v' m' o' s' t' (record { price = l.price; size = size }) (not (flag d == 0)),
            40,
          ))
        v m o s t h
    ∙ ap₂ (λ x y. accepted (delta v m o s t (record { price = l.price; size = x }) y, 40))
        (size_back l.size hs) (flag_back d)

trade_back :
    (v m o s t : ℕ) (p : Prob) (a : ℤ) (side : TradeSide) (rest : List ℕ)
    → IsPlace v m o s t
    → IsProb p
    → IsI64 a
    → decode_event (record_bytes (trade v m o s t p a side) ++ rest)
      ≡ accepted (trade v m o s t p a side, 40)
unfolding decode_event decode_trade record_bytes
trade_back v m o s t p a side rest h hp hs =
    let size = from_bits (from_le (le_bytes 8 (to_bits a))) in
    let read_side = side_from_u8 (side_to_u8 side) in
    if_ltb-ge (length (record_bytes (trade v m o s t p a side) ++ rest)) 40 _ _ (omega arith)
    ∙ ap
        (λ c. and_then c (λ q. accepted (
          trade (from_le (le_bytes 2 v)) (from_le (le_bytes 4 m)) (from_le (le_bytes 4 o))
              (from_le (le_bytes 8 s)) (from_le (le_bytes 8 t)) q size read_side,
          40,
        )))
        (price_of-ok p hp)
    ∙ place_back (λ v' m' o' s' t'. accepted (trade v' m' o' s' t' p size read_side, 40)) v m o s t
        h
    ∙ ap₂ (λ x y. accepted (trade v m o s t p x y, 40)) (size_back a hs) (side_back side)

halt_back :
    (v m : ℕ) (o : Option ℕ) (t reason : ℕ) (rest : List ℕ)
    → IsEvent (halt v m o t reason)
    → decode_event (record_bytes (halt v m o t reason) ++ rest) ≡ accepted (halt v m o t reason, 21)
unfolding decode_event decode_halt record_bytes
halt_back v m none t reason rest (hv, hm, ht, hr) =
    if_ltb-ge (length (record_bytes (halt v m none t reason) ++ rest)) 21 _ _ (omega arith)
    ∙ ap₂ (λ x y. accepted (halt x y none (from_le (le_bytes 8 t)) reason, 21))
        (from_le-le_bytes 2 v hv) (from_le-le_bytes 4 m hm)
    ∙ ap (λ x. accepted (halt v m none x reason, 21)) (from_le-le_bytes 8 t ht)
halt_back v m (some o) t reason rest (hv, hm, ho, ht, hr) =
    if_ltb-ge (length (record_bytes (halt v m (some o) t reason) ++ rest)) 21 _ _ (omega arith)
    ∙ ap₂
        (λ x y.
          accepted (halt x y (some (from_le (le_bytes 4 o))) (from_le (le_bytes 8 t)) reason, 21))
        (from_le-le_bytes 2 v hv) (from_le-le_bytes 4 m hm)
    ∙ ap₂ (λ x y. accepted (halt v m (some x) y reason, 21)) (from_le-le_bytes 4 o ho)
        (from_le-le_bytes 8 t ht)

pub length-levels_bytes : (ls : List Level) → length (levels_bytes ls) ≡ length ls * 12
unfolding levels_bytes
length-levels_bytes [] = omega arith
length-levels_bytes (l ∷ ls) = omega (arith, length-levels_bytes ls)

-- The record of a snapshot with these levels and no others.
abbrev listed : ℕ → ℕ → ℕ → ℕ → ℕ → List Level → List ℕ
listed v m o s t ls = 1 ∷ place_bytes v m o s t (length ls ∷ levels_bytes ls)

listed_back :
    (v m o s t : ℕ) (ls : List Level) (rest : List ℕ)
    → IsPlace v m o s t
    → All IsLevel ls
    → length ls ≤ max_levels
    → decode_event (listed v m o s t ls ++ rest)
      ≡ accepted (snapshot v m o s t (level_buffer ls) (length ls), 28 + length ls * 12)
unfolding decode_event decode_snapshot
listed_back v m o s t ls rest h hl few =
    let src = listed v m o s t ls ++ rest in
    let full : length (levels_bytes ls ++ rest) ≡ length ls * 12 + length rest =
      length-append (levels_bytes ls) rest ∙ ap (λ k. k + length rest) (length-levels_bytes ls) in
    let held : min (length ls) max_levels ≡ length ls = omega arith in
    let event : ℕ → List Level → Checked FeedError (FeedEvent × ℕ) = (λ n buffer. accepted (
      snapshot (from_le (le_bytes 2 v)) (from_le (le_bytes 4 m)) (from_le (le_bytes 4 o))
          (from_le (le_bytes 8 s)) (from_le (le_bytes 8 t)) buffer n,
      28 + length ls * 12,
    )) in
    if_ltb-ge (length src) 28 _ _ (omega arith)
    ∙ if_ltb-ge (length src) (28 + length ls * 12) _ _ (omega (arith, full))
    ∙ ap
        (λ n.
          and_then (decode_levels n (levels_bytes ls ++ rest)) (λ ls'. event n (level_buffer ls')))
        held
    ∙ ap (λ c. and_then c (λ ls'. event (length ls) (level_buffer ls')))
        (decode_levels-levels_bytes ls rest hl)
    ∙ place_back
        (λ v' m' o' s' t'.
          accepted (snapshot v' m' o' s' t' (level_buffer ls) (length ls), 28 + length ls * 12))
        v m o s t h

-- The record of an event that the types of the source can hold, whatever follows it, is decoded
-- to that event, with the unused levels of a snapshot blank and its count of levels held to
-- eight, and its length is the number of bytes that the decoding takes.
pub decode_event-record_bytes :
    (e : FeedEvent) (rest : List ℕ)
    → IsEvent e
    → decode_event (record_bytes e ++ rest) ≡ accepted (canonical e, length (record_bytes e))
unfolding record_bytes
decode_event-record_bytes (snapshot v m o s t levels num) rest (h, hl, full) =
    let k = min num max_levels in
    let ls = take k levels in
    let e : length ls ≡ k = omega (arith, length-take k levels, full) in
    ap (λ n. decode_event (1 ∷ place_bytes v m o s t (n ∷ levels_bytes ls) ++ rest)) (sym e)
    ∙ listed_back v m o s t ls rest h (All-take IsLevel k levels hl) (omega (arith, e))
    ∙ ap₂ (λ n bytes. accepted (snapshot v m o s t (level_buffer ls) n, bytes)) e
        (omega (arith, length-levels_bytes ls))
decode_event-record_bytes (delta v m o s t l d) rest h = delta_back v m o s t l d rest h.0 h.1
decode_event-record_bytes (trade v m o s t p a side) rest (h, hp, hs) =
    trade_back v m o s t p a side rest h hp hs
decode_event-record_bytes (heartbeat v t) rest (hv, ht) = heartbeat_back v t rest hv ht
decode_event-record_bytes (halt v m none t reason) rest h = halt_back v m none t reason rest h
decode_event-record_bytes (halt v m (some o) t reason) rest h =
    halt_back v m (some o) t reason rest h
