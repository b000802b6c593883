-- ===== src/Handshake.antt =====
-- How a connection is opened: `accept_clients` of pipebomb/server.py and `connect` of
-- pipebomb/client.py.
pub mod Keys
pub mod Accept
pub mod Connect
pub mod Script
pub mod Serving
pub mod Dialling
pub mod Agreement
pub mod Admitted
pub mod Quiet
pub mod Consistency
