-- ===== src/Client.antt =====
-- crates/skadi-client: the client's own computations.
pub mod Pmtud
