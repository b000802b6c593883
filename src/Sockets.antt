-- ===== src/Sockets.antt =====
-- The socket factories of pipebomb/impl.py, and the text of an address.
pub mod Factories
pub mod Text
