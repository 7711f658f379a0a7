-- ===== src/Httpapi.antt =====
-- internal/httpapi: the routes of the backend.
pub mod Paths
pub mod Validate
pub mod Middleware
pub mod Namespaces
pub mod Logs
pub mod Summaries
pub mod Health
pub mod Storage
pub mod Network
pub mod Events
pub mod Overview
pub mod Router
pub mod Workloads
pub mod Resources
pub mod Upstream
