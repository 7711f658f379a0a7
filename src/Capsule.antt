-- ===== src/Capsule.antt =====
-- internal/capsule: the client of the Capsule Proxy.
pub mod Client
pub mod Logs
