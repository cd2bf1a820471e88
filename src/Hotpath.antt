-- ===== src/Hotpath.antt =====
-- crates/moxi-hotpath/src/lib.rs: the first answer to a request, and how fast the answers are.
pub mod Data
pub mod Controller
pub mod Latency
pub mod Percentiles
pub mod Snapshots
pub mod Decisions
pub mod Total
