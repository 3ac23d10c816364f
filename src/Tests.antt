-- ===== src/Tests.antt =====
-- Runs of the model on concrete inputs: the theorems applied where their conditions hold.
mod Samples
mod AdminApi
mod Annotations
mod Routes
mod Admin
mod AccessLog
pub mod Tls
mod Deletion
mod Redis
mod Cluster
mod Add
mod Nested
mod Runs
mod Caddyfile
mod Reloader
mod Start
pub mod Flaky
mod Threads
mod TlsThreads
mod Lifecycle
mod Overlap
mod Locks
