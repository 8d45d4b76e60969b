-- ===== src/Feed/Tape/Records.antt =====
-- A record that is written is the record that is read (crates/arbkit-feed/src/tape/reader.rs).
use arbkit.Prelude.{
  ℕ, zero, suc, ◌+◌, ◌*◌, ◌≤◌, ◌≡◌, refl, sym, ap, ap₂, ◌∙◌, false, Option, none, some, List, [],
  ◌∷◌, ◌++◌, Checked, accepted, rejected, length, take, drop, min, replicate, arith, ltb, ◌==◌,
  if◌then◌else◌, length-append, length-take, take-append, drop-append, append_nil,
}
use arbkit.Core.Book.{max_levels}
use arbkit.Feed.Tape.Bytes.{byte_at}
use arbkit.Feed.Event.{IsEvent, unexpected_eof, FeedEvent, snapshot, delta, trade, heartbeat, halt}
use arbkit.Feed.Tape.Format.{encode_event, record_bytes, levels_bytes, max_record_size, place_bytes}
use arbkit.Feed.Tape.Roundtrip.{if_ltb-ge, length-levels_bytes}
use arbkit.Feed.Tape.Stream.{
  ReadStop, failed, panicked, TapeWriter, write_event, read_exact, read_fixed, read_snapshot,
  read_payload,
}

length-record_bytes : (e : FeedEvent) → IsEvent e → length (record_bytes e) ≤ max_record_size
unfolding record_bytes
length-record_bytes (snapshot v m o s t levels num) (h, hl, full) = omega (
  arith,
  length-levels_bytes (take (min num max_levels) levels),
  length-take (min num max_levels) levels,
)
length-record_bytes (delta v m o s t l d) h = omega arith
length-record_bytes (trade v m o s t p a side) h = omega arith
length-record_bytes (heartbeat v t) h = omega arith
length-record_bytes (halt v m none t reason) h = omega arith
length-record_bytes (halt v m (some o) t reason) h = omega arith

pub write_event-appends :
    (e : FeedEvent) (w : TapeWriter)
    → IsEvent e
    → write_event e w
      ≡ accepted (record w {
        written = w.written ++ record_bytes e;
        events_written = w.events_written + 1;
      })
unfolding write_event encode_event
write_event-appends e w h =
    let rest = drop (length (record_bytes e)) (replicate max_record_size 0) in
    ap
      (λ bytes.
        accepted (record w { written = w.written ++ bytes; events_written = w.events_written + 1 }))
      (take-append (length (record_bytes e)) (record_bytes e) rest refl)

-- The tag of a record, and what follows it.
abbrev pub read_record : List ℕ → Checked ReadStop (List ℕ × List ℕ)
read_record [] = accepted ([], [])
read_record (tag ∷ rest) = read_payload tag rest

abbrev IsRead : List ℕ → List ℕ → List ℕ → Type 0
IsRead src payload rest = read_record src ≡ accepted (payload, rest)

pub read_exact-append :
    (n : ℕ) (bytes rest : List ℕ)
    → length bytes ≡ n
    → read_exact n (bytes ++ rest) ≡ some (bytes, rest)
read_exact-append n bytes rest h =
    let enough : n ≤ length (bytes ++ rest) = omega (arith, h, length-append bytes rest) in
    if_ltb-ge (length (bytes ++ rest)) n _ _ enough
    ∙ ap₂ (λ x y. some (x, y)) (take-append n bytes rest h) (drop-append n bytes rest h)

-- What is done with the bytes that `read_exact` gives.
abbrev pub with_bytes :
    Option (List ℕ × List ℕ)
    → (List ℕ → List ℕ → Checked ReadStop (List ℕ × List ℕ))
    → Checked ReadStop (List ℕ × List ℕ)
with_bytes o k = elim o [
  | none ↦ rejected (failed unexpected_eof)
  | some (bytes, rest) ↦ k bytes rest
]

fixed_back :
    (tag n : ℕ) (body rest : List ℕ)
    → length body ≡ n
    → read_fixed tag n (body ++ rest) ≡ accepted (tag ∷ body, rest)
fixed_back tag n body rest h =
    ap (λ o. with_bytes o (λ bytes rest'. accepted (tag ∷ bytes, rest')))
      (read_exact-append n body rest h)

-- The second half of a snapshot, once its count is known.
abbrev read_levels : ℕ → List ℕ → List ℕ → Checked ReadStop (List ℕ × List ℕ)
read_levels count fixed rest =
    if count * 12 == 0
    then accepted (1 ∷ fixed, rest)
    else if ltb max_record_size (28 + count * 12)
    then rejected panicked
    else with_bytes (read_exact (count * 12) rest)
        (λ levels rest'. accepted (1 ∷ fixed ++ levels, rest'))

read_levels_back :
    (count : ℕ) (fixed levels rest : List ℕ)
    → length levels ≡ count * 12
    → count ≤ max_levels
    → read_levels count fixed (levels ++ rest) ≡ accepted (1 ∷ fixed ++ levels, rest)
read_levels_back zero fixed [] rest h few =
    ap (λ f. accepted (1 ∷ f, rest)) (sym (append_nil fixed))
read_levels_back zero fixed (b ∷ levels) rest h few = absurd (omega arith)
read_levels_back (suc n) fixed levels rest h few =
    let some_bytes : (suc n * 12 == 0) ≡ false = ground arith in
    let fits : ltb max_record_size (28 + suc n * 12) ≡ false = ground arith in
    ap
      (λ b.
        if b
        then accepted (1 ∷ fixed, levels ++ rest)
        else if ltb max_record_size (28 + suc n * 12)
        then rejected panicked
        else with_bytes (read_exact (suc n * 12) (levels ++ rest))
            (λ ls rest'. accepted (1 ∷ fixed ++ ls, rest')))
      some_bytes
    ∙ ap
        (λ b.
          if b
          then rejected panicked
          else with_bytes (read_exact (suc n * 12) (levels ++ rest))
              (λ ls rest'. accepted (1 ∷ fixed ++ ls, rest')))
        fits
    ∙ ap (λ o. with_bytes o (λ ls rest'. accepted (1 ∷ fixed ++ ls, rest')))
        (read_exact-append (suc n * 12) levels rest h)

snapshot_back :
    (fixed levels rest : List ℕ)
    → length fixed ≡ 27
    → length levels ≡ byte_at 26 fixed * 12
    → byte_at 26 fixed ≤ max_levels
    → read_snapshot 1 (fixed ++ (levels ++ rest)) ≡ accepted (1 ∷ fixed ++ levels, rest)
unfolding read_snapshot
snapshot_back fixed levels rest h k few =
    ap (λ o. with_bytes o (λ bytes rest'. read_levels (byte_at 26 bytes) bytes rest'))
      (read_exact-append 27 fixed (levels ++ rest) h)
    ∙ read_levels_back (byte_at 26 fixed) fixed levels rest k few

pub record_bytes-IsRead :
    (e : FeedEvent) (rest : List ℕ)
    → IsEvent e
    → IsRead (record_bytes e ++ rest) (record_bytes e) rest
unfolding record_bytes read_payload
record_bytes-IsRead (snapshot v m o s t levels num) rest (h, hl, full) =
    let k = min num max_levels in
    let size : length (levels_bytes (take k levels)) ≡ k * 12 =
      omega (arith, length-levels_bytes (take k levels), length-take k levels, full) in
    snapshot_back (place_bytes v m o s t (k ∷ [])) (levels_bytes (take k levels)) rest refl size
      (omega arith)
record_bytes-IsRead (delta v m o s t l d) rest h = fixed_back 2 39 _ rest refl
record_bytes-IsRead (trade v m o s t p a side) rest h = fixed_back 3 39 _ rest refl
record_bytes-IsRead (heartbeat v t) rest h = fixed_back 4 10 _ rest refl
record_bytes-IsRead (halt v m none t reason) rest h = fixed_back 5 20 _ rest refl
record_bytes-IsRead (halt v m (some o) t reason) rest h = fixed_back 5 20 _ rest refl
