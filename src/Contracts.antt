-- ===== src/Contracts.antt =====
-- The data of crates/moxi-contracts/src/lib.rs that the store and the kernel exchange. A
-- `DateTime<Utc>` is a number of milliseconds from the earliest instant, and a `serde_json::Value`
-- is its compact JSON text.
mod Enums
mod Requests
mod Records
unfoldable pub use Enums.*
unfoldable pub use Requests.*
unfoldable pub use Records.*
