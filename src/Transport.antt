-- ===== src/Transport.antt =====
-- crates/skadi-transport: what carries the streams.
pub mod Packets
pub mod Sessions
pub mod Xudp
pub mod Mux
