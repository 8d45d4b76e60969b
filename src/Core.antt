-- ===== src/Core.antt =====
-- The domain core (crates/arbkit-core): prices, fees, books, and the arbitrage detector.
pub mod Error
pub mod Price
pub mod Fee
pub mod Market
pub mod Book
pub mod Fill
pub mod Arb
