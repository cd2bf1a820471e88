-- ===== src/Ingress.antt =====
-- The way of a request into the kernel: crates/moxi-entry, crates/moxi-gateway, crates/moxi-intent.
pub mod Entry
pub mod Gateway
pub mod Intent
pub mod Reading
pub mod Capabilities
pub mod Redaction
pub mod Admission
pub mod Limits
pub mod Compiled
