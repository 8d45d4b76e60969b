-- ===== src/Exec.antt =====
-- crates/arbkit-exec: the risk gate before an order, the execution of a hedge of two legs, and the settlement of orders.
pub mod Risk
pub mod Executor
pub mod Guards
pub mod Ledger
pub mod Reconcile
