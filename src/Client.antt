-- ===== src/Client.antt =====
-- pipebomb/client.py
pub mod Primitive
pub mod Messages
pub mod Receive
pub mod Cutting
pub mod Agreement
pub mod ReceiveLaws
pub mod Streaming
pub mod Endings
pub mod Sending
