-- ===== src/Tls.antt =====
-- Certificates and automation policies: tls.go and tls_policy.go.
pub mod Certs
pub mod Tracked
pub mod Managed
pub mod References
pub mod Policy
pub mod Subjects
pub mod Threads
pub mod Hosts
