-- ===== src/Store.antt =====
-- crates/moxi-store/src/lib.rs: the kernel's database. A table is a list of rows in `rowid`
-- order, and a row holds what the queries read of it; the JSON payload of a row is the value that
-- it parses to.
mod State
mod Runs
mod Facts
mod Ledger
mod Bindings
mod Audit
pub mod Lifecycle
pub mod Counters
pub mod Budgets
pub mod Tickets
pub mod Chain
pub mod Tamper
pub mod Evidence
pub mod Account
pub mod Approved
pub mod Accounted
pub mod Replay
pub mod Report
pub mod Listings
pub mod Observed
unfoldable pub use State.*
unfoldable pub use Runs.*
unfoldable pub use Facts.*
unfoldable pub use Ledger.*
unfoldable pub use Bindings.*
unfoldable pub use Audit.*
