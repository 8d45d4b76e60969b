-- ===== src/Feed/Tape.antt =====
-- crates/arbkit-feed/src/tape: the binary tape. `Bytes` has the little-endian numbers, `Format` the
-- header and the records, `Stream` the writer, the reader and the player; the others have proofs.
pub mod Bytes
pub mod Format
pub mod Roundtrip
pub mod Stream
pub mod Records
pub mod Replay
pub mod Filtered
pub mod Consumed
