-- ===== src/Startup.antt =====
-- The entry points of the operator (cmd/main.go) and of the daemon (dset/main.go).
pub mod Runtime
pub mod Options
pub mod Operator
pub mod Node
pub mod Flagged
pub mod Order
pub mod Up
