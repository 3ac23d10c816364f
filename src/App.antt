-- ===== src/App.antt =====
-- The application: app.go.
pub mod State
pub mod Delete
pub mod Removed
pub mod Add
pub mod Recorded
pub mod Apart
pub mod Prepared
pub mod Placed
pub mod Ids
pub mod Reconciled
pub mod Settled
pub mod Events
pub mod Coherent
pub mod Start
pub mod Ready
pub mod Lifecycle
pub mod Overlap
pub mod Locks
pub mod Owned
