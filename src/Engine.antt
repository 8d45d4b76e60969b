-- ===== src/Engine.antt =====
-- crates/arbkit-engine: the state of the engine, its loop and its ring.
pub mod Slab
pub mod Histogram
pub mod Aggregator
pub mod Loop
pub mod Ring
