-- ===== src/Examples.antt =====
-- The theorems at concrete inputs, over an instance of every parameter.
pub mod Memory
pub mod Text
pub mod Samples
pub mod Sessions
pub mod Login
pub mod Upstream
pub mod Logs
pub mod Router
pub mod Startup
pub mod Mockoidc
pub mod Refine
pub mod Process
