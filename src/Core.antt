-- ===== src/Core.antt =====
-- crates/moxi-core/src/lib.rs: the policy engine and the kernel.
pub mod Patterns
pub mod Policy
pub mod Errors
pub mod Manifests
pub mod Kernel
pub mod Grounds
pub mod Verdict
pub mod Modes
pub mod Authority
pub mod Proposed
pub mod Executed
pub mod Committed
pub mod Frame
pub mod Matching
pub mod Accountable
