-- ===== src/Tests.antt =====
-- Tests on concrete inputs, and an application of each theorem that has hypotheses.
pub mod CoreTests
pub mod ArbTests
pub mod StateTests
pub mod MetricTests
pub mod EngineTests
pub mod SlotTests
pub mod FeedTests
pub mod LedgerTests
