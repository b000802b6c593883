-- ===== src/Archive.antt =====
-- `serialize` and `deserialize` of pipebomb/server.py: the tables of a server as one byte string.
pub mod Write
pub mod Read
pub mod Blocks
pub mod Layout
pub mod Items
pub mod Restore
pub mod Sessions
pub mod Clients
pub mod RoundTrip
pub mod Checkpoint
pub mod Fuel
