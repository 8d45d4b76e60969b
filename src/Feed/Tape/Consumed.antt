-- ===== src/Feed/Tape/Consumed.antt =====
-- The loop of the player on any bytes (crates/arbkit-feed/src/tape/reader.rs and player.rs).
use arbkit.Prelude.{
  ℕ, zero, suc, ◌+◌, ◌*◌, ◌≤◌, ◌<◌, ◌≡◌, refl, Bool, true, false, Option, none, some, List, [], ◌∷◌,
  ◌++◌, Checked, accepted, rejected, length, take, drop, arith, ltb, ◌==◌, if◌then◌else◌,
  length-drop,
}
use arbkit.Feed.Event.{FeedEvent, FeedError}
use arbkit.Feed.Tape.Bytes.{byte_at}
use arbkit.Feed.Tape.Format.{TapeHeader, decode_event, max_record_size}
use arbkit.Feed.Tape.Stream.{
  ReadStop, failed, panicked, unfinished, TapeReader, TapePlayer, read_exact, read_fixed,
  read_snapshot, read_payload, read_event, matches, next_event_loop, next_event,
}
use arbkit.Feed.Tape.Records.{with_bytes}
use arbkit.Feed.Tape.Replay.{at}

-- An error or a panic, but not a loop that was cut short.
abbrev pub IsFinal : ReadStop → Type 0
IsFinal (failed e) = Unit
IsFinal panicked = Unit
IsFinal unfinished = ⊥

-- The bytes that a successful read leaves are no more than these.
abbrev Leaves : ℕ → Checked ReadStop (List ℕ × List ℕ) → Type 0
Leaves n (rejected e) = IsFinal e
Leaves n (accepted (bytes, rest)) = length rest ≤ n

Leaves-if :
    (n : ℕ) (b : Bool) (x y : Checked ReadStop (List ℕ × List ℕ))
    → Leaves n x
    → Leaves n y
    → Leaves n (if b then x else y)
Leaves-if n true x y h k = h
Leaves-if n false x y h k = k

with_bytes-Leaves :
    (m n : ℕ) (reader : List ℕ) (k : List ℕ → List ℕ → Checked ReadStop (List ℕ × List ℕ))
    → ((bytes rest : List ℕ) → length rest ≤ length reader → Leaves m (k bytes rest))
    → Leaves m (with_bytes (read_exact n reader) k)
with_bytes-Leaves m n reader k h = go (ltb (length reader) n)
  where
    go :
        (b : Bool)
        → Leaves m (with_bytes (if b then none else some (take n reader, drop n reader)) k)
    go true = tt
    go false = h (take n reader) (drop n reader) (omega (arith, length-drop n reader))

read_fixed-Leaves : (tag n : ℕ) (reader : List ℕ) → Leaves (length reader) (read_fixed tag n reader)
read_fixed-Leaves tag n reader =
    with_bytes-Leaves (length reader) n reader (λ bytes rest. accepted (tag ∷ bytes, rest))
      (λ bytes rest le. le)

read_snapshot-Leaves :
    (tag : ℕ) (reader : List ℕ) → Leaves (length reader) (read_snapshot tag reader)
unfolding read_snapshot
read_snapshot-Leaves tag reader = with_bytes-Leaves (length reader) 27 reader _ (λ fixed rest le.
    let n = byte_at 26 fixed * 12 in
    Leaves-if (length reader) (n == 0) _ _ le (
      Leaves-if (length reader) (ltb max_record_size (28 + n)) _ _ tt (
        with_bytes-Leaves (length reader) n rest
          (λ levels rest'. accepted (tag ∷ fixed ++ levels, rest'))
          (λ levels rest' le'. omega arith))))

read_payload-Leaves : (tag : ℕ) (reader : List ℕ) → Leaves (length reader) (read_payload tag reader)
unfolding read_payload
read_payload-Leaves tag reader =
    let n = length reader in
    Leaves-if n (tag == 1) _ _ (read_snapshot-Leaves tag reader) (
      Leaves-if n (tag == 2) _ _ (read_fixed-Leaves tag 39 reader) (
        Leaves-if n (tag == 3) _ _ (read_fixed-Leaves tag 39 reader) (
          Leaves-if n (tag == 4) _ _ (read_fixed-Leaves tag 10 reader)
            (Leaves-if n (tag == 5) _ _ (read_fixed-Leaves tag 20 reader) tt))))

-- An event takes bytes from the reader.
Shrinks : ℕ → Checked ReadStop (Option FeedEvent × TapeReader) → Type 0
Shrinks n (rejected e) = IsFinal e
Shrinks n (accepted (none, r)) = Unit
Shrinks n (accepted (some e, r)) = length r.reader < n

-- The second half of `read_event`: the event of the bytes of a record.
abbrev decoded :
    TapeReader
    → List ℕ
    → Checked FeedError (FeedEvent × ℕ)
    → Checked ReadStop (Option FeedEvent × TapeReader)
decoded r rest c = elim c [
  | rejected e ↦ rejected (failed e)
  | accepted (event, bytes_read) ↦
      accepted (some event, record r { reader = rest; events_read = r.events_read + 1 })
]

abbrev finish :
    TapeReader
    → Checked ReadStop (List ℕ × List ℕ)
    → Checked ReadStop (Option FeedEvent × TapeReader)
finish r c = elim c [
  | rejected e ↦ rejected e
  | accepted (payload, rest) ↦ decoded r rest (decode_event payload)
]

decoded-Shrinks :
    (n : ℕ) (r : TapeReader) (rest : List ℕ) (c : Checked FeedError (FeedEvent × ℕ))
    → length rest < n
    → Shrinks n (decoded r rest c)
unfolding Shrinks
decoded-Shrinks n r rest (rejected e) h = tt
decoded-Shrinks n r rest (accepted (event, k)) h = h

finish-Shrinks :
    (n : ℕ) (r : TapeReader) (c : Checked ReadStop (List ℕ × List ℕ))
    → Leaves n c
    → Shrinks (suc n) (finish r c)
unfolding Shrinks
finish-Shrinks n r (rejected e) h = h
finish-Shrinks n r (accepted (payload, rest)) h =
    decoded-Shrinks (suc n) r rest (decode_event payload) (omega arith)

read_event-Shrinks :
    (bytes : List ℕ) (header : TapeHeader) (n : ℕ)
    → Shrinks (length bytes) (read_event (at bytes header n))
unfolding read_event Shrinks
read_event-Shrinks [] header n = tt
read_event-Shrinks (tag ∷ bytes) header n =
    finish-Shrinks (length bytes) (at (tag ∷ bytes) header n) (read_payload tag bytes)
      (read_payload-Leaves tag bytes)

-- The loop with the call of `read_event` made.
abbrev turn :
    ℕ
    → TapePlayer
    → Checked ReadStop (Option FeedEvent × TapeReader)
    → Checked ReadStop (Option FeedEvent × TapePlayer)
turn fuel p c = elim c [
  | rejected e ↦ rejected e
  | accepted (none, r) ↦ accepted (none, record p { reader = r })
  | accepted (some event, r) ↦ elim (matches p event) [
    | true ↦ accepted (some event, record p { reader = r; events_played = p.events_played + 1 })
    | false ↦ next_event_loop fuel (record p { reader = r })
  ]
]

-- A call of the player that comes to an end of its own.
abbrev pub Ends : Checked ReadStop (Option FeedEvent × TapePlayer) → Type 0
Ends (rejected e) = IsFinal e
Ends (accepted r) = Unit

-- What is true of two loops that both have turns enough.
abbrev Agree :
    Checked ReadStop (Option FeedEvent × TapePlayer)
    → Checked ReadStop (Option FeedEvent × TapePlayer)
    → Type 0
Agree a b = (a ≡ b) × Ends a

turn-Agree :
    (n fuel fuel' : ℕ) (p : TapePlayer) (c : Checked ReadStop (Option FeedEvent × TapeReader))
    → Shrinks n c
    → ((q : TapePlayer)
        → length q.reader.reader < n
        → Agree (next_event_loop fuel q) (next_event_loop fuel' q))
    → Agree (turn fuel p c) (turn fuel' p c)
unfolding Shrinks
turn-Agree n fuel fuel' p (rejected e) h same = (refl, h)
turn-Agree n fuel fuel' p (accepted (none, r)) h same = (refl, tt)
turn-Agree n fuel fuel' p (accepted (some event, r)) h same = go (matches p event)
  where
    finish_turn : ℕ → Bool → Checked ReadStop (Option FeedEvent × TapePlayer)
    finish_turn k b = elim b [
      | true ↦ accepted (some event, record p { reader = r; events_played = p.events_played + 1 })
      | false ↦ next_event_loop k (record p { reader = r })
    ]

    go : (b : Bool) → Agree (finish_turn fuel b) (finish_turn fuel' b)
    go true = (refl, tt)
    go false = same (record p { reader = r }) h

loop-Agree :
    (fuel fuel' : ℕ) (p : TapePlayer)
    → length p.reader.reader < fuel
    → length p.reader.reader < fuel'
    → Agree (next_event_loop fuel p) (next_event_loop fuel' p)
unfolding next_event_loop
loop-Agree zero fuel' p h h' = absurd (omega arith)
loop-Agree (suc fuel) zero p h h' = absurd (omega arith)
loop-Agree (suc fuel) (suc fuel') p h h' =
    let r = p.reader in
    turn-Agree (length r.reader) fuel fuel' p (read_event r)
      (read_event-Shrinks r.reader r.header r.events_read)
      (λ q lt. loop-Agree fuel fuel' q (omega arith) (omega arith))

-- The loop of `next_event` ends, for any bytes, records or not, and any filters: `next_event` returns
-- an event, the end of the tape, an error or a panic, and is never cut short with its turns used
-- up; any number of turns above the number of bytes left gives the same result.
pub next_event_loop-enough :
    (fuel : ℕ) (p : TapePlayer)
    → length p.reader.reader < fuel
    → (next_event p ≡ next_event_loop fuel p) × Ends (next_event p)
unfolding next_event
next_event_loop-enough fuel p h = loop-Agree (length p.reader.reader + 1) fuel p (omega arith) h
