-- ===== src/Annotations.antt =====
-- Annotations of an Ingress: annotations.go.
pub mod Names
pub mod Config
pub mod Parse
pub mod Resolve
pub mod Entries
pub mod Timeout
pub mod BodySize
pub mod Fetched
pub mod WellFormed
pub mod Fields
