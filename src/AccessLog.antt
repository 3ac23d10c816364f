-- ===== src/AccessLog.antt =====
-- The access log manager: access_log.go.
pub mod Manager
pub mod Skipped
