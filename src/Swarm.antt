-- ===== src/Swarm.antt =====
-- crates/moxi-swarm/src/lib.rs: plans for subagents, their messages, and the merge of their work.
pub mod Data
pub mod Planning
pub mod Merging
pub mod Bounds
pub mod Messages
pub mod Reviewed
