-- ===== src/Feed/Tape/Format.antt =====
-- crates/arbkit-feed/src/tape/format.rs: the header of a tape and its records, as bytes.
use arbkit.Prelude.{
  ℕ, zero, suc, ◌+◌, ◌*◌, Bool, true, false, not, none, some, List, [], ◌∷◌, ◌++◌, Checked,
  accepted, rejected, length, take, drop, replicate, min, ltb, ◌==◌, if◌then◌else◌,
}
use arbkit.Core.Error.{ok, err}
use arbkit.Core.Price.{Prob, from_ppm}
use arbkit.Core.Book.{Level, max_levels}
use arbkit.Feed.Event.{
  FeedEvent, snapshot, delta, trade, heartbeat, halt, side_from_u8, side_to_u8, FeedError,
  invalid_price, invalid_tape_header, unsupported_tape_version, tape_corrupted, buffer_overflow,
  header_too_short, magic_mismatch, empty_record, truncated_snapshot_header,
  truncated_snapshot_levels, truncated_delta, truncated_trade, truncated_heartbeat, truncated_halt,
  unknown_tag, level_buffer,
}
use arbkit.Feed.Tape.Bytes.{le_bytes, field, byte_at, to_bits, from_bits}

-- `ARBTAPE` and a one.
abbrev pub tape_magic : List ℕ
tape_magic = 0x41 ∷ 0x52 ∷ 0x42 ∷ 0x54 ∷ 0x41 ∷ 0x50 ∷ 0x45 ∷ 0x01 ∷ []

abbrev pub tape_version : ℕ
tape_version = 1

abbrev pub tape_header_size : ℕ
tape_header_size = 64

abbrev pub max_record_size : ℕ
max_record_size = 128

pub record TapeHeader : Type 0 where
  pub magic : List ℕ
  pub version : ℕ
  pub flags : ℕ
  pub created_timestamp_ns : ℕ
  pub event_count : ℕ
  pub venue_mask : ℕ
  pub reserved : List ℕ

unfoldable pub new_header : ℕ → TapeHeader
new_header created_timestamp_ns = record {
  magic = tape_magic;
  version = tape_version;
  flags = 0;
  created_timestamp_ns = created_timestamp_ns;
  event_count = 0;
  venue_mask = 0;
  reserved = replicate 32 0;
}

unfoldable pub encode_header : TapeHeader → List ℕ
encode_header h =
    h.magic
    ++ (le_bytes 2 h.version
        ++ (le_bytes 2 h.flags
            ++ (le_bytes 8 h.created_timestamp_ns
                ++ (le_bytes 8 h.event_count ++ (le_bytes 4 h.venue_mask ++ h.reserved)))))

abbrev pub same_bytes : List ℕ → List ℕ → Bool
same_bytes [] [] = true
same_bytes [] (b ∷ bs) = false
same_bytes (a ∷ as_) [] = false
same_bytes (a ∷ as_) (b ∷ bs) = if a == b then same_bytes as_ bs else false

unfoldable pub decode_header : List ℕ → Checked FeedError TapeHeader
decode_header bytes =
    if ltb (length bytes) tape_header_size
    then rejected (invalid_tape_header header_too_short)
    else if not (same_bytes (take 8 bytes) tape_magic)
    then rejected (invalid_tape_header magic_mismatch)
    else if not (field 8 2 bytes == tape_version)
    then rejected (unsupported_tape_version (field 8 2 bytes) tape_version)
    else accepted (record {
      magic = take 8 bytes;
      version = field 8 2 bytes;
      flags = field 10 2 bytes;
      created_timestamp_ns = field 12 8 bytes;
      event_count = field 20 8 bytes;
      venue_mask = field 28 4 bytes;
      reserved = take 32 (drop 32 bytes);
    })

abbrev pub level_bytes : Level → List ℕ
level_bytes l = le_bytes 4 l.price.ppm ++ le_bytes 8 (to_bits l.size)

unfoldable pub levels_bytes : List Level → List ℕ
levels_bytes [] = []
levels_bytes (l ∷ ls) = level_bytes l ++ levels_bytes ls

abbrev pub flag : Bool → ℕ
flag true = 1
flag false = 0

-- The five fields that a snapshot, a delta and a trade begin with.
abbrev pub place_bytes : ℕ → ℕ → ℕ → ℕ → ℕ → List ℕ → List ℕ
place_bytes venue market outcome seq time rest =
    le_bytes 2 venue
    ++ (le_bytes 4 market ++ (le_bytes 4 outcome ++ (le_bytes 8 seq ++ (le_bytes 8 time ++ rest))))

-- The bytes that `encode_event` writes, from the start of the buffer.
unfoldable pub record_bytes : FeedEvent → List ℕ
unfolding levels_bytes side_to_u8
record_bytes (snapshot venue market outcome seq time levels num_levels) =
    1
    ∷ place_bytes venue market outcome seq time
        (min num_levels max_levels ∷ levels_bytes (take (min num_levels max_levels) levels))
record_bytes (delta venue market outcome seq time level is_delete) =
    2 ∷ place_bytes venue market outcome seq time (level_bytes level ++ (flag is_delete ∷ []))
record_bytes (trade venue market outcome seq time price size side) =
    3
    ∷ place_bytes venue market outcome seq time
        (level_bytes (record { price = price; size = size }) ++ (side_to_u8 side ∷ []))
record_bytes (heartbeat venue time) = 4 ∷ le_bytes 2 venue ++ le_bytes 8 time
record_bytes (halt venue market (some outcome) time reason) =
    5 ∷ le_bytes 2 venue
    ++ (le_bytes 4 market ++ (1 ∷ le_bytes 4 outcome ++ (le_bytes 8 time ++ (reason ∷ []))))
record_bytes (halt venue market none time reason) =
    5 ∷ le_bytes 2 venue
    ++ (le_bytes 4 market ++ (0 ∷ le_bytes 4 0 ++ (le_bytes 8 time ++ (reason ∷ []))))

-- The buffer with the record written over its start, and the length of the record.
unfoldable pub encode_event : FeedEvent → List ℕ → Checked FeedError (List ℕ × ℕ)
encode_event event out =
    if ltb (length out) max_record_size
    then rejected (buffer_overflow (length out))
    else let bytes = record_bytes event in accepted (bytes ++ drop (length bytes) out, length bytes)

abbrev pub price_of : ℕ → Checked FeedError Prob
price_of ppm = elim (from_ppm ppm) [ ok p ↦ accepted p | err e ↦ rejected (invalid_price e) ]

-- The loop over the levels of a snapshot, twelve bytes each.
unfoldable pub decode_levels : ℕ → List ℕ → Checked FeedError (List Level)
decode_levels zero bytes = accepted []
decode_levels (suc n) bytes = elim (price_of (field 0 4 bytes)) [
  | rejected e ↦ rejected e
  | accepted p ↦ elim (decode_levels n (drop 12 bytes)) [
    | rejected e ↦ rejected e
    | accepted ls ↦ accepted (record { price = p; size = from_bits (field 4 8 bytes) } ∷ ls)
  ]
]

unfoldable pub decode_snapshot : List ℕ → Checked FeedError (FeedEvent × ℕ)
unfolding decode_levels
decode_snapshot src =
    if ltb (length src) 28
    then rejected (tape_corrupted truncated_snapshot_header)
    else if ltb (length src) (28 + byte_at 27 src * 12)
    then rejected (tape_corrupted truncated_snapshot_levels)
    else elim (decode_levels (min (byte_at 27 src) max_levels) (drop 28 src)) [
      | rejected e ↦ rejected e
      | accepted ls ↦ accepted (
        snapshot (field 1 2 src) (field 3 4 src) (field 7 4 src) (field 11 8 src) (field 19 8 src)
            (level_buffer ls) (min (byte_at 27 src) max_levels),
        28 + byte_at 27 src * 12,
      )
    ]

unfoldable pub decode_delta : List ℕ → Checked FeedError (FeedEvent × ℕ)
decode_delta src =
    if ltb (length src) 40
    then rejected (tape_corrupted truncated_delta)
    else elim (price_of (field 27 4 src)) [
      | rejected e ↦ rejected e
      | accepted p ↦ accepted (
        delta (field 1 2 src) (field 3 4 src) (field 7 4 src) (field 11 8 src) (field 19 8 src)
            (record { price = p; size = from_bits (field 31 8 src) }) (not (byte_at 39 src == 0)),
        40,
      )
    ]

unfoldable pub decode_trade : List ℕ → Checked FeedError (FeedEvent × ℕ)
decode_trade src =
    if ltb (length src) 40
    then rejected (tape_corrupted truncated_trade)
    else elim (price_of (field 27 4 src)) [
      | rejected e ↦ rejected e
      | accepted p ↦ accepted (
        trade (field 1 2 src) (field 3 4 src) (field 7 4 src) (field 11 8 src) (field 19 8 src) p
            (from_bits (field 31 8 src)) (side_from_u8 (byte_at 39 src)),
        40,
      )
    ]

unfoldable pub decode_heartbeat : List ℕ → Checked FeedError (FeedEvent × ℕ)
decode_heartbeat src =
    if ltb (length src) 11
    then rejected (tape_corrupted truncated_heartbeat)
    else accepted (heartbeat (field 1 2 src) (field 3 8 src), 11)

unfoldable pub decode_halt : List ℕ → Checked FeedError (FeedEvent × ℕ)
decode_halt src =
    if ltb (length src) 21
    then rejected (tape_corrupted truncated_halt)
    else accepted (
      halt (field 1 2 src) (field 3 4 src)
          (if byte_at 7 src == 0 then none else some (field 8 4 src)) (field 12 8 src)
          (byte_at 20 src),
      21,
    )

-- The event, and the number of bytes that it took.
unfoldable pub decode_event : List ℕ → Checked FeedError (FeedEvent × ℕ)
decode_event [] = rejected (tape_corrupted empty_record)
decode_event (tag ∷ bytes) =
    if tag == 1
    then decode_snapshot (tag ∷ bytes)
    else if tag == 2
    then decode_delta (tag ∷ bytes)
    else if tag == 3
    then decode_trade (tag ∷ bytes)
    else if tag == 4
    then decode_heartbeat (tag ∷ bytes)
    else if tag == 5
    then decode_halt (tag ∷ bytes)
    else rejected (tape_corrupted unknown_tag)
