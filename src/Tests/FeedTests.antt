-- ===== src/Tests/FeedTests.antt =====
-- Tests of the tape (crates/arbkit-feed/src/tape): three events written and replayed, and an application of
-- each theorem that has hypotheses.
use arbkit.Prelude.{
  ◌≡◌, refl, some, none, List, [], ◌∷◌, ◌++◌, length, take, map, All, All-replicate, arith,
  replicate, accepted, rejected,
}
use arbkit.Prelude.Int.{pos, negsuc}
use arbkit.Core.Book.{blank_level}
use arbkit.Feed.Event.{FeedEvent, snapshot, trade, heartbeat, buy, IsEvent, IsLevel}
use arbkit.Feed.Tape.Format.{TapeHeader, record_bytes, decode_event}
use arbkit.Feed.Tape.Roundtrip.{canonical, decode_event-record_bytes}
use arbkit.Feed.Tape.Stream.{
  TapeWriter, TapeReader, TapePlayer, panicked, with_header, write_batch, open_tape, read_batch,
  new_player, next_event_loop, next_event, play_into, matches, read_payload, read_snapshot,
}
use arbkit.Feed.Tape.Replay.{IsHeader, read_batch-write_batch}
use arbkit.Feed.Tape.Filtered.{choose, play_into-write_batch}
use arbkit.Feed.Tape.Consumed.{Ends, next_event_loop-enough}

abbrev snap : FeedEvent
snap =
    snapshot 1 10 100 1 1_000_000
      (record { price = record { ppm = 500_000 }; size = pos 1_000 } ∷ replicate 7 blank_level) 1

abbrev sold : FeedEvent
sold = trade 2 10 100 7 1_000_500 (record { ppm = 520_000 }) (negsuc 4) buy

abbrev beat : FeedEvent
beat = heartbeat 1 1_001_000

abbrev three_events : List FeedEvent
three_events = snap ∷ sold ∷ beat ∷ []

snap_held : IsEvent snap
snap_held = (
  (omega arith, omega arith, omega arith, omega arith, omega arith),
  (
    ((omega arith, omega arith), (omega arith, omega arith)),
    All-replicate IsLevel 7 blank_level ((omega arith, omega arith), (omega arith, omega arith)),
  ),
  refl,
)

sold_held : IsEvent sold
sold_held = (
  (omega arith, omega arith, omega arith, omega arith, omega arith),
  (omega arith, omega arith),
  (omega arith, omega arith),
)

three_events_held : All IsEvent three_events
three_events_held = (snap_held, (sold_held, ((omega arith, omega arith), tt)))

abbrev tape_header : TapeHeader
tape_header = record {
  magic = 0x41 ∷ 0x52 ∷ 0x42 ∷ 0x54 ∷ 0x41 ∷ 0x50 ∷ 0x45 ∷ 0x01 ∷ [];
  version = 1;
  flags = 0;
  created_timestamp_ns = 42;
  event_count = 0;
  venue_mask = 3;
  reserved = replicate 32 0;
}

tape_header-IsHeader : IsHeader tape_header
tape_header-IsHeader = record {
  magic = refl;
  version = refl;
  flags = omega arith;
  created = omega arith;
  count = omega arith;
  mask = omega arith;
  reserved = refl;
}

decode_event-record_bytes_example :
    decode_event (record_bytes sold ++ (1 ∷ [])) ≡ accepted (sold, length (record_bytes sold))
decode_event-record_bytes_example = decode_event-record_bytes sold (1 ∷ []) sold_held

read_batch-write_batch_example :
    (w : TapeWriter) × (r : TapeReader) × (write_batch three_events (with_header [] tape_header)
      ≡ accepted w)
    × (w.events_written ≡ 3)
    × (open_tape w.written ≡ accepted r)
    × (read_batch 5 r
        ≡ accepted (map canonical three_events, record r { reader = []; events_read = 3 }))
read_batch-write_batch_example =
    read_batch-write_batch tape_header three_events 5 tape_header-IsHeader three_events_held
      (omega arith)

play_into-write_batch_example :
    (w : TapeWriter) × (r : TapeReader) × (q : TapePlayer) × (write_batch three_events
        (with_header [] tape_header)
      ≡ accepted w)
    × (open_tape w.written ≡ accepted r)
    × (let p = record (new_player r) {
      venue_filter = some 1;
      market_filter = none;
      outcome_filter = none;
    } in
        let out = take 4 (choose (matches p) (map canonical three_events)) in
        (play_into 4 p ≡ accepted (out, q)) × (q.events_played ≡ length out))
play_into-write_batch_example =
    play_into-write_batch tape_header three_events 4 (some 1) none none tape_header-IsHeader
      three_events_held

-- A player at bytes that are no record.
abbrev broken_player : TapePlayer
broken_player = record {
  reader = record { reader = 9 ∷ 9 ∷ []; header = tape_header; events_read = 0 };
  venue_filter = none;
  market_filter = none;
  outcome_filter = none;
  events_played = 0;
}

next_event_loop-enough_example :
    (next_event broken_player ≡ next_event_loop 30 broken_player) × Ends (next_event broken_player)
next_event_loop-enough_example = next_event_loop-enough 30 broken_player (omega arith)

-- A snapshot that counts nine levels is beyond the buffer of `read_event`.
nine_levels_panic : read_payload 1 (replicate 26 0 ++ (9 ∷ replicate 200 0)) ≡ rejected panicked
unfolding read_payload read_snapshot
nine_levels_panic = refl
