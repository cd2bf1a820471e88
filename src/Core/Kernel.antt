-- ===== src/Core/Kernel.antt =====
-- The kernel. A method is an action on the kernel, whose store is a part of it. What the source
-- takes from outside comes as an argument: the fresh identifier (`Uuid::new_v4`), what each
-- `Utc::now()` of a method returns, in the order of the calls, and the answer of an executor.
mod State
mod Registration
mod Admission
mod Approval
mod Execution
mod Commit
unfoldable pub use State.*
unfoldable pub use Registration.*
unfoldable pub use Admission.*
unfoldable pub use Approval.*
unfoldable pub use Execution.*
unfoldable pub use Commit.*
