-- ===== src/Feed/Tape/Replay.antt =====
-- Whole tapes, written and replayed (crates/arbkit-feed/src/tape/writer.rs, reader.rs and player.rs).
use arbkit.Prelude.{
  ℕ, zero, suc, ◌+◌, ◌^◌, ◌≤◌, ◌<◌, ◌≡◌, refl, sym, ap, ap₂, ◌∙◌, none, some, List, [], ◌∷◌, ◌++◌,
  map, accepted, length, take, All, arith, length-append, take-append, append_nil, append_assoc,
}
use arbkit.Feed.Tape.Bytes.{le_bytes, from_le, from_le-le_bytes}
use arbkit.Feed.Event.{IsEvent, FeedEvent, snapshot, delta, trade, heartbeat, halt}
use arbkit.Feed.Tape.Format.{
  TapeHeader, encode_header, decode_header, decode_event, record_bytes, tape_magic, tape_version,
}
use arbkit.Feed.Tape.Roundtrip.{canonical, decode_event-record_bytes, if_ltb-ge}
use arbkit.Feed.Tape.Stream.{
  TapeWriter, TapeReader, with_header, write_batch, open_tape, read_payload, read_event, read_batch,
}
use arbkit.Feed.Tape.Records.{
  write_event-appends, read_record, read_exact-append, record_bytes-IsRead,
}

pub record_bytes-cons :
    (e : FeedEvent) → (tag : ℕ) × (body : List ℕ) × (record_bytes e ≡ tag ∷ body)
unfolding record_bytes
record_bytes-cons (snapshot v m o s t levels num) = (_, _, refl)
record_bytes-cons (delta v m o s t l d) = (_, _, refl)
record_bytes-cons (trade v m o s t p a side) = (_, _, refl)
record_bytes-cons (heartbeat v t) = (_, _, refl)
record_bytes-cons (halt v m none t reason) = (_, _, refl)
record_bytes-cons (halt v m (some o) t reason) = (_, _, refl)

-- A reader at these bytes, with this many events read.
abbrev pub at : List ℕ → TapeHeader → ℕ → TapeReader
at reader header n = record { reader = reader; header = header; events_read = n }

read_event-reads :
    (tag : ℕ) (bytes rest payload : List ℕ) (e : FeedEvent) (k n : ℕ) (header : TapeHeader)
    → read_payload tag bytes ≡ accepted (payload, rest)
    → decode_event payload ≡ accepted (e, k)
    → read_event (at (tag ∷ bytes) header n) ≡ accepted (some e, at rest header (n + 1))
unfolding read_event
read_event-reads tag bytes rest payload e k n header h d = rw (h, read_event, d) refl

pub read_event_back :
    (e : FeedEvent) (rest : List ℕ) (header : TapeHeader) (n : ℕ)
    → IsEvent e
    → read_event (at (record_bytes e ++ rest) header n)
      ≡ accepted (some (canonical e), at rest header (n + 1))
read_event_back e rest header n h =
    let (tag, body, q) = record_bytes-cons e in
    let d : decode_event (record_bytes e) ≡ accepted (canonical e, length (record_bytes e)) =
      ap decode_event (sym (append_nil (record_bytes e))) ∙ decode_event-record_bytes e [] h in
    let r : read_record (tag ∷ body ++ rest) ≡ accepted (record_bytes e, rest) =
      ap (λ bytes. read_record (bytes ++ rest)) (sym q) ∙ record_bytes-IsRead e rest h in
    ap (λ bytes. read_event (at (bytes ++ rest) header n)) q
    ∙ read_event-reads tag (body ++ rest) rest (record_bytes e) (canonical e) _ n header r d

-- The records of the events, one after the other.
abbrev pub records_bytes : List FeedEvent → List ℕ
records_bytes [] = []
records_bytes (e ∷ es) = record_bytes e ++ records_bytes es

pub write_batch-appends :
    (es : List FeedEvent) (w : TapeWriter)
    → All IsEvent es
    → write_batch es w
      ≡ accepted (record w {
        written = w.written ++ records_bytes es;
        events_written = w.events_written + length es;
      })
unfolding write_batch
write_batch-appends [] w h =
    ap₂ (λ x y. accepted (record w { written = x; events_written = y }))
      (sym (append_nil w.written)) (omega arith)
write_batch-appends (e ∷ es) w h =
    rw (write_event-appends e w h.0, write_batch)
      (write_batch-appends es _ h.1
        ∙ ap₂ (λ x y. accepted (record w { written = x; events_written = y }))
            (append_assoc w.written (record_bytes e) (records_bytes es)) (omega arith))

read_batch_back :
    (slots : ℕ) (es : List FeedEvent) (header : TapeHeader) (n : ℕ)
    → All IsEvent es
    → length es ≤ slots
    → read_batch slots (at (records_bytes es) header n)
      ≡ accepted (map canonical es, at [] header (n + length es))
unfolding read_batch read_event
read_batch_back zero [] header n h few = ap (λ k. accepted ([], at [] header k)) (omega arith)
read_batch_back (suc slots) [] header n h few =
    ap (λ k. accepted ([], at [] header k)) (omega arith)
read_batch_back zero (e ∷ es) header n h few = absurd (omega arith)
read_batch_back (suc slots) (e ∷ es) header n h few =
    rw
      (
        read_event_back e (records_bytes es) header n h.0,
        read_batch,
        read_batch_back slots es header (n + 1) h.1 (omega arith),
      )
      (ap (λ k. accepted (canonical e ∷ map canonical es, at [] header k)) (omega arith))

-- A header that `decode_header` takes and the types of the source can hold.
pub record IsHeader (h : TapeHeader) : Type 0 where
  pub magic : h.magic ≡ tape_magic
  pub version : h.version ≡ tape_version
  pub flags : h.flags < 2 ^ 16
  pub created : h.created_timestamp_ns < 2 ^ 64
  pub count : h.event_count < 2 ^ 64
  pub mask : h.venue_mask < 2 ^ 32
  pub reserved : length h.reserved ≡ 32

decode_header-encode_header :
    (h : TapeHeader) → IsHeader h → decode_header (encode_header h) ≡ accepted h
unfolding decode_header encode_header
decode_header-encode_header h i =
    let plain : TapeHeader = record h { magic = tape_magic; version = tape_version } in
    let q : h ≡ plain = ap₂ (λ m v. record h { magic = m; version = v }) i.magic i.version in
    let whole : take 32 h.reserved ≡ h.reserved =
      ap (take 32) (sym (append_nil h.reserved)) ∙ take-append 32 h.reserved [] i.reserved in
    ap (λ x. decode_header (encode_header x)) q
    ∙ if_ltb-ge (length (encode_header plain)) 64 _ _ (omega (arith, i.reserved))
    ∙ ap₂
        (λ f t. accepted (record plain {
          flags = f;
          created_timestamp_ns = t;
          event_count = from_le (le_bytes 8 h.event_count);
          venue_mask = from_le (le_bytes 4 h.venue_mask);
          reserved = take 32 h.reserved;
        }))
        (from_le-le_bytes 2 h.flags i.flags) (from_le-le_bytes 8 h.created_timestamp_ns i.created)
    ∙ ap₂
        (λ c k.
          accepted
            (record plain { event_count = c; venue_mask = k; reserved = take 32 h.reserved }))
        (from_le-le_bytes 8 h.event_count i.count) (from_le-le_bytes 4 h.venue_mask i.mask)
    ∙ ap (λ r. accepted (record plain { reserved = r })) whole
    ∙ ap accepted (sym q)

length-encode_header : (h : TapeHeader) → IsHeader h → length (encode_header h) ≡ 64
unfolding encode_header
length-encode_header h i =
    let rest =
      le_bytes 2 h.version
      ++ (le_bytes 2 h.flags
          ++ (le_bytes 8 h.created_timestamp_ns
              ++ (le_bytes 8 h.event_count ++ (le_bytes 4 h.venue_mask ++ h.reserved)))) in
    let eight : length h.magic ≡ 8 = ap length i.magic in
    length-append h.magic rest ∙ omega (arith, eight, i.reserved)

pub open_tape_back :
    (h : TapeHeader) (rest : List ℕ)
    → IsHeader h
    → open_tape (encode_header h ++ rest) ≡ accepted (at rest h 0)
unfolding open_tape
open_tape_back h rest i =
    rw
      (
        read_exact-append 64 (encode_header h) rest (length-encode_header h i),
        open_tape,
        decode_header-encode_header h i,
      )
      refl

-- What a writer of a header that `TapeReader` takes and of any events leaves opens, and reading it in
-- a batch with a slot for each event gives the events, in order, and the end of the tape. A snapshot
-- comes back in the form that a record keeps: its count of levels is held to eight, and the levels past
-- the count are blank. Every other event comes back as it was.
pub read_batch-write_batch :
    (h : TapeHeader) (es : List FeedEvent) (slots : ℕ)
    → IsHeader h
    → All IsEvent es
    → length es ≤ slots
    → (w : TapeWriter) × (r : TapeReader) × (write_batch es (with_header [] h) ≡ accepted w)
      × (w.events_written ≡ length es)
      × (open_tape w.written ≡ accepted r)
      × (read_batch slots r
          ≡ accepted (map canonical es, record r { reader = []; events_read = length es }))
unfolding with_header
read_batch-write_batch h es slots i valid enough = (
  _,
  at (records_bytes es) h 0,
  write_batch-appends es (with_header [] h) valid,
  omega arith,
  open_tape_back h (records_bytes es) i,
  read_batch_back slots es h 0 valid enough
      ∙ ap (λ k. accepted (map canonical es, at [] h k)) (omega arith),
)
