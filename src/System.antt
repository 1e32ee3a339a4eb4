-- ===== src/System.antt =====
-- Several sessions on one database: the web server's requests and the worker, as a sequence of
-- transactions. A transaction runs on the tables that the ones before it have committed; the upload
-- of a photo is three transactions, between which others may run.
mod Defs
mod Induction
mod Respects
mod Objects
mod Handlers
mod Others
mod Writes
mod Statements
pub mod Rollback
pub mod Capacity
pub mod Outbox
pub mod Lifecycle
pub mod History
pub mod References
pub mod Settled
pub mod Drain
unfoldable pub use Defs.*
pub use Respects.*
pub use Handlers.*
pub use Induction.*
