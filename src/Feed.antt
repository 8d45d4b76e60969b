-- ===== src/Feed.antt =====
-- crates/arbkit-feed: the events that drive the engine, and the tapes that record them.
pub mod Event
pub mod Tape
