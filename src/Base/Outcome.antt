-- ===== src/Base/Outcome.antt =====
-- Rust's `Result`, and methods that change an object and may fail. What was written before an
-- error stays written, so the state comes back beside the error too.
pub mod Pure
pub mod Action
