-- ===== src/Auth.antt =====
-- internal/auth: login, callback, session status and logout.
pub mod Cookies
pub mod Oidc
pub mod Sessions
pub mod Hardening
pub mod Setup
