-- ===== src/Sim.antt =====
-- crates/arbkit-sim: the parts of the simulator that keep money.
pub mod Bankroll
