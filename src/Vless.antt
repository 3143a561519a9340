-- ===== src/Vless.antt =====
-- crates/skadi-protocol/src/vless: the VLESS protocol.
pub mod Request
pub mod Mux
pub mod Users
pub mod Addons
pub mod Handler
