-- ===== src/Admin.antt =====
-- The client of Caddy's admin API: admin.go.
pub mod Client
pub mod Upsert
pub mod Program
pub mod Requests
pub mod Policies
pub mod Threads
