-- ===== src/Store.antt =====
-- The ownership store, Ingress key to route ids: store.go.
pub mod Interface
pub mod Memory
pub mod Redis
pub mod RedisLaws
pub mod Choice
