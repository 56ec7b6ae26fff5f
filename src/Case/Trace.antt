-- ===== src/Case/Trace.antt =====
-- Any sequence of calls on one case, accepted or refused, in any order.
pub mod Calls
pub mod Seal
pub mod Limits
pub mod History
pub mod Reopen
unfoldable pub use Calls.*
