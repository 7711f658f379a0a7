-- ===== src/Session.antt =====
-- internal/session: encrypted sessions and login transactions in Valkey/Redis.
pub mod Records
pub mod Crypto
pub mod Backend
pub mod Codec
pub mod Store
pub mod Contract
pub mod Keys
pub mod Sealing
pub mod Puts
pub mod RoundTrip
pub mod OneUse
pub mod Spec
pub mod Tables
pub mod Creates
pub mod Shows
pub mod Simulate
pub mod Refine
pub mod Origin
