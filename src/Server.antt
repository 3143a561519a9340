-- ===== src/Server.antt =====
-- crates/skadi-server: the limits that the server puts on sessions, calls and failed logins.
pub mod Gate
pub mod RateLimit
pub mod AuthRateLimit
pub mod Store
pub mod Prefixed
pub mod Dispatch
pub mod Tests
