-- ===== src/Routes.antt =====
-- The routes of an Ingress: routes.go.
pub mod Model
pub mod Nested
pub mod Handlers
pub mod Build
pub mod Convert
pub mod Chain
pub mod Rules
pub mod Ids
pub mod Firewall
pub mod Upstream
pub mod Guards
pub mod Distinct
pub mod Shape
