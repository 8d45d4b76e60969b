-- ===== src/Feed/Tape/Filtered.antt =====
-- Tapes replayed through the filters of a player (crates/arbkit-feed/src/tape/player.rs).
use arbkit.Prelude.{
  ℕ, zero, suc, ◌+◌, ◌≤◌, ◌<◌, ◌≡◌, refl, ap, ◌∙◌, Bool, Option, none, some, List, [], ◌∷◌, map,
  accepted, length, take, All, arith, if◌then◌else◌, length-append, Bool-cases, inl, inr, ◌⊎◌,
}
use arbkit.Feed.Event.{IsEvent, FeedEvent}
use arbkit.Feed.Tape.Format.{TapeHeader, record_bytes}
use arbkit.Feed.Tape.Roundtrip.{canonical}
use arbkit.Feed.Tape.Stream.{
  TapeReader, TapePlayer, read_event, matches, next_event_loop, next_event, play_into, TapeWriter,
  with_header, write_batch, open_tape, new_player,
}
use arbkit.Feed.Tape.Replay.{
  at, records_bytes, record_bytes-cons, read_event_back, write_batch-appends, open_tape_back,
  IsHeader,
}

-- The events that pass a test, in their order.
abbrev pub choose : (FeedEvent → Bool) → List FeedEvent → List FeedEvent
choose test [] = []
choose test (e ∷ es) = if test e then e ∷ choose test es else choose test es

-- The player with its reader at the records of these events.
abbrev playing : TapePlayer → TapeHeader → List FeedEvent → ℕ → ℕ → TapePlayer
playing p header es read played = record p {
  reader = at (records_bytes es) header read;
  events_played = played;
}

-- The next event that matches, and what is left of the tape after it.
record Next (p : TapePlayer) (header : TapeHeader) (es : List FeedEvent) (played fuel : ℕ)
    (q : TapePlayer) : Type 0 where
  event : FeedEvent
  left : List FeedEvent
  read' : ℕ
  valid : All IsEvent left
  chosen : choose (matches p) (map canonical es) ≡ event ∷ choose (matches p) (map canonical left)
  found : next_event_loop fuel q ≡ accepted (some event, playing p header left read' (played + 1))

record Over (p : TapePlayer) (header : TapeHeader) (es : List FeedEvent) (played fuel : ℕ)
    (q : TapePlayer) : Type 0 where
  read' : ℕ
  chosen : choose (matches p) (map canonical es) ≡ []
  found : next_event_loop fuel q ≡ accepted (none, playing p header [] read' played)

module _ (p : TapePlayer) (header : TapeHeader) where
  loop_back :
      (fuel : ℕ) (es : List FeedEvent) (read played : ℕ)
      → All IsEvent es
      → length es < fuel
      → Next p header es played fuel (playing p header es read played)
        ⊎ Over p header es played fuel (playing p header es read played)
  unfolding next_event_loop read_event matches
  loop_back zero es read played h enough = absurd (omega arith)
  loop_back (suc fuel) [] read played h enough =
      inr (record { read' = read; chosen = refl; found = refl })
  loop_back (suc fuel) (e ∷ es) read played h enough =
      let back = read_event_back e (records_bytes es) header read h.0 in
      elim (Bool-cases (matches p (canonical e))) [
        | inl yes_ ↦ inl (record {
          event = canonical e;
          left = es;
          read' = read + 1;
          valid = h.1;
          chosen =
              ap
                (λ b.
                  if b
                  then canonical e ∷ choose (matches p) (map canonical es)
                  else choose (matches p) (map canonical es))
                yes_;
          found = rw (back, next_event_loop, yes_) refl;
        })
        | inr no_ ↦
            let skip : choose (matches p) (map canonical (e ∷ es))
                ≡ choose (matches p) (map canonical es) =
              ap
                (λ b.
                  if b
                  then canonical e ∷ choose (matches p) (map canonical es)
                  else choose (matches p) (map canonical es))
                no_ in
            let step : next_event_loop (suc fuel) (playing p header (e ∷ es) read played)
                ≡ next_event_loop fuel (playing p header es (read + 1) played) =
              rw (back, next_event_loop, no_) refl in
            elim (loop_back fuel es (read + 1) played h.1 (omega arith)) [
              | inl n ↦ inl (record {
                event = n.event;
                left = n.left;
                read' = n.read';
                valid = n.valid;
                chosen = skip ∙ n.chosen;
                found = step ∙ n.found;
              })
              | inr o ↦
                  inr (record { read' = o.read'; chosen = skip ∙ o.chosen; found = step ∙ o.found })
            ]
      ]

length-records_bytes : (es : List FeedEvent) → length es ≤ length (records_bytes es)
length-records_bytes [] = omega arith
length-records_bytes (e ∷ es) =
    let (tag, body, q) = record_bytes-cons e in
    let size : length (record_bytes e) ≡ suc (length body) = ap length q in
    omega (arith, size, length-append (record_bytes e) (records_bytes es), length-records_bytes es)

-- What a player at these records puts into a buffer with this many slots.
Played : TapePlayer → TapeHeader → List FeedEvent → ℕ → ℕ → ℕ → Type 0
Played p header es read played slots =
    let out = take slots (choose (matches p) (map canonical es)) in
    (q : TapePlayer) × (play_into slots (playing p header es read played) ≡ accepted (out, q))
    × (q.events_played ≡ played + length out)

play_back :
    (p : TapePlayer) (header : TapeHeader) (slots : ℕ) (es : List FeedEvent) (read played : ℕ)
    → All IsEvent es
    → Played p header es read played slots
unfolding Played play_into next_event
play_back p header zero es read played h = (_, refl, omega arith)
play_back p header (suc slots) es read played h =
    let at_start = playing p header es read played in
    elim (loop_back p header (length (records_bytes es) + 1) es read played h
      (omega (arith, length-records_bytes es))) [
        | inl n ↦
            let (q, more, count) = play_back p header slots n.left n.read' (played + 1) n.valid in
            rw (n.chosen) (q, rw (n.found, play_into, more) refl, omega (arith, count))
        | inr o ↦
            rw (o.chosen)
              (playing p header [] o.read' played, rw (o.found, play_into) refl, omega arith)
      ]

-- What a writer of a header that `TapeReader` takes and of any events leaves, replayed through
-- any filters into a buffer of any size, puts into the buffer the first of the events that pass
-- every filter, in order, as many as fit, and `events_played` counts them. The filters see, and the buffer
-- gets, the form of an event that a record keeps: a snapshot's count of levels is held to eight, and
-- the levels past the count are blank; every other event is as it was.
pub play_into-write_batch :
    (h : TapeHeader) (es : List FeedEvent) (slots : ℕ) (venue market outcome : Option ℕ)
    → IsHeader h
    → All IsEvent es
    → (w : TapeWriter) × (r : TapeReader) × (q : TapePlayer) × (write_batch es (with_header [] h)
        ≡ accepted w)
      × (open_tape w.written ≡ accepted r)
      × (let p = record (new_player r) {
        venue_filter = venue;
        market_filter = market;
        outcome_filter = outcome;
      } in
          let out = take slots (choose (matches p) (map canonical es)) in
          (play_into slots p ≡ accepted (out, q)) × (q.events_played ≡ length out))
unfolding with_header new_player Played
play_into-write_batch h es slots venue market outcome i valid =
    let r = at (records_bytes es) h 0 in
    let p : TapePlayer = record (new_player r) {
      venue_filter = venue;
      market_filter = market;
      outcome_filter = outcome;
    } in
    let (q, out, count) = play_back p h slots es 0 0 valid in
    (
      _,
      r,
      q,
      write_batch-appends es (with_header [] h) valid,
      open_tape_back h (records_bytes es) i,
      (out, omega (arith, count)),
    )
