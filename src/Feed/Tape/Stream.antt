-- ===== src/Feed/Tape/Stream.antt =====
-- crates/arbkit-feed/src/tape/writer.rs, reader.rs and player.rs, over a tape in memory: the writer
-- appends to a list of bytes, and the reader takes bytes from the front of one, whose `read_exact`
-- fails when too few are left. A failed call returns no reader. A slice that the source takes past
-- the end of its buffer is a panic.
use arbkit.Prelude.{
  ℕ, zero, suc, ◌+◌, ◌*◌, Bool, true, false, ◌&&◌, Option, none, some, List, [], ◌∷◌, ◌++◌, Checked,
  accepted, rejected, length, take, drop, replicate, ltb, ◌==◌, if◌then◌else◌,
}
use arbkit.Feed.Event.{
  FeedEvent, FeedError, unexpected_eof, tape_corrupted, unknown_tag, venue_id, market_id,
  outcome_id,
}
use arbkit.Feed.Tape.Bytes.{byte_at}
use arbkit.Feed.Tape.Format.{
  TapeHeader, encode_header, decode_header, encode_event, decode_event, max_record_size,
  tape_header_size,
}

-- Why a call does not return a value: an error, a panic, or a loop of the model whose turns are used
-- up before it ends.
pub data ReadStop : Type 0 where
  failed : FeedError → ReadStop
  panicked : ReadStop
  unfinished : ReadStop

pub record TapeWriter : Type 0 where
  pub written : List ℕ
  pub header : TapeHeader
  pub events_written : ℕ

unfoldable pub with_header : List ℕ → TapeHeader → TapeWriter
with_header writer header = record {
  written = writer ++ encode_header header;
  header = header;
  events_written = 0;
}

unfoldable pub write_event : FeedEvent → TapeWriter → Checked FeedError TapeWriter
write_event event w = elim (encode_event event (replicate max_record_size 0)) [
  | rejected e ↦ rejected e
  | accepted (out, bytes_written) ↦ accepted (record w {
    written = w.written ++ take bytes_written out;
    events_written = w.events_written + 1;
  })
]

unfoldable pub write_batch : List FeedEvent → TapeWriter → Checked FeedError TapeWriter
write_batch [] w = accepted w
write_batch (event ∷ events) w = elim (write_event event w) [
  | rejected e ↦ rejected e
  | accepted w' ↦ write_batch events w'
]

pub record TapeReader : Type 0 where
  pub reader : List ℕ
  pub header : TapeHeader
  pub events_read : ℕ

-- `Read::read_exact` of a slice of bytes.
abbrev pub read_exact : ℕ → List ℕ → Option (List ℕ × List ℕ)
read_exact n reader = if ltb (length reader) n then none else some (take n reader, drop n reader)

-- `TapeReader::new`
unfoldable pub open_tape : List ℕ → Checked FeedError TapeReader
open_tape reader = elim (read_exact tape_header_size reader) [
  | none ↦ rejected unexpected_eof
  | some (bytes, rest) ↦ elim (decode_header bytes) [
    | rejected e ↦ rejected e
    | accepted header ↦ accepted (record { reader = rest; header = header; events_read = 0 })
  ]
]

-- A record of a fixed size, after its tag.
abbrev pub read_fixed : ℕ → ℕ → List ℕ → Checked ReadStop (List ℕ × List ℕ)
read_fixed tag n reader = elim (read_exact n reader) [
  | none ↦ rejected (failed unexpected_eof)
  | some (bytes, rest) ↦ accepted (tag ∷ bytes, rest)
]

-- A snapshot: twenty-seven bytes after the tag, then twelve for each level that the last of them
-- counts, into a buffer of `max_record_size` bytes.
unfoldable pub read_snapshot : ℕ → List ℕ → Checked ReadStop (List ℕ × List ℕ)
read_snapshot tag reader = elim (read_exact 27 reader) [
  | none ↦ rejected (failed unexpected_eof)
  | some (fixed, rest) ↦
      let levels_bytes = byte_at 26 fixed * 12 in
      if levels_bytes == 0
      then accepted (tag ∷ fixed, rest)
      else if ltb max_record_size (28 + levels_bytes)
      then rejected panicked
      else elim (read_exact levels_bytes rest) [
        | none ↦ rejected (failed unexpected_eof)
        | some (levels, rest') ↦ accepted (tag ∷ fixed ++ levels, rest')
      ]
]

-- The bytes of the record after its tag has been read, and those that follow.
unfoldable pub read_payload : ℕ → List ℕ → Checked ReadStop (List ℕ × List ℕ)
read_payload tag reader =
    if tag == 1
    then read_snapshot tag reader
    else if tag == 2
    then read_fixed tag 39 reader
    else if tag == 3
    then read_fixed tag 39 reader
    else if tag == 4
    then read_fixed tag 10 reader
    else if tag == 5
    then read_fixed tag 20 reader
    else rejected (failed (tape_corrupted unknown_tag))

-- The event is `none` at a clean end.
unfoldable pub read_event : TapeReader → Checked ReadStop (Option FeedEvent × TapeReader)
read_event r = elim r.reader [
  | [] ↦ accepted (none, r)
  | tag ∷ rest ↦ elim (read_payload tag rest) [
    | rejected e ↦ rejected e
    | accepted (payload, rest') ↦ elim (decode_event payload) [
      | rejected e ↦ rejected (failed e)
      | accepted (event, bytes_read) ↦
          accepted (some event, record r { reader = rest'; events_read = r.events_read + 1 })
    ]
  ]
]

-- The slots of the buffer that are filled, from the first.
unfoldable pub read_batch : ℕ → TapeReader → Checked ReadStop (List FeedEvent × TapeReader)
read_batch zero r = accepted ([], r)
read_batch (suc slots) r = elim (read_event r) [
  | rejected e ↦ rejected e
  | accepted (none, r') ↦ accepted ([], r')
  | accepted (some event, r') ↦ elim (read_batch slots r') [
    | rejected e ↦ rejected e
    | accepted (events, r'') ↦ accepted (event ∷ events, r'')
  ]
]

pub record TapePlayer : Type 0 where
  pub reader : TapeReader
  pub venue_filter : Option ℕ
  pub market_filter : Option ℕ
  pub outcome_filter : Option ℕ
  pub events_played : ℕ

unfoldable pub new_player : TapeReader → TapePlayer
new_player reader = record {
  reader = reader;
  venue_filter = none;
  market_filter = none;
  outcome_filter = none;
  events_played = 0;
}

unfoldable pub with_venue_filter : ℕ → TapePlayer → TapePlayer
with_venue_filter venue_id p = record p { venue_filter = some venue_id }

unfoldable pub with_market_filter : ℕ → TapePlayer → TapePlayer
with_market_filter market_id p = record p { market_filter = some market_id }

unfoldable pub with_outcome_filter : ℕ → TapePlayer → TapePlayer
with_outcome_filter outcome_id p = record p { outcome_filter = some outcome_id }

-- A filter that is absent lets everything through; one that is set wants that value.
abbrev pub admits : Option ℕ → Option ℕ → Bool
admits none value = true
admits (some wanted) none = false
admits (some wanted) (some value) = value == wanted

unfoldable pub matches : TapePlayer → FeedEvent → Bool
matches p event =
    admits p.venue_filter (some (venue_id event))
    && admits p.market_filter (market_id event)
    && admits p.outcome_filter (outcome_id event)

-- The loop of `next_event`, on fuel: every turn that goes on has read an event.
unfoldable pub next_event_loop : ℕ → TapePlayer → Checked ReadStop (Option FeedEvent × TapePlayer)
next_event_loop zero p = rejected unfinished
next_event_loop (suc fuel) p = elim (read_event p.reader) [
  | rejected e ↦ rejected e
  | accepted (none, r) ↦ accepted (none, record p { reader = r })
  | accepted (some event, r) ↦ elim (matches p event) [
    | true ↦ accepted (some event, record p { reader = r; events_played = p.events_played + 1 })
    | false ↦ next_event_loop fuel (record p { reader = r })
  ]
]

-- A record takes at least one byte, so there are at most as many turns as bytes, and one to see
-- the end.
unfoldable pub next_event : TapePlayer → Checked ReadStop (Option FeedEvent × TapePlayer)
next_event p = next_event_loop (length p.reader.reader + 1) p

unfoldable pub play_into : ℕ → TapePlayer → Checked ReadStop (List FeedEvent × TapePlayer)
play_into zero p = accepted ([], p)
play_into (suc slots) p = elim (next_event p) [
  | rejected e ↦ rejected e
  | accepted (none, p') ↦ accepted ([], p')
  | accepted (some event, p') ↦ elim (play_into slots p') [
    | rejected e ↦ rejected e
    | accepted (events, p'') ↦ accepted (event ∷ events, p'')
  ]
]
