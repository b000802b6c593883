-- ===== src/Server.antt =====
-- pipebomb/server.py
pub mod State
pub mod Fields
pub mod Monad
pub mod Requests
pub mod Exchange
pub mod Session
pub mod Addresses
pub mod Calm
pub mod Registry
pub mod Consistency
pub mod Cleanup
pub mod Endings
pub mod Abrupt
pub mod Replies
pub mod KeyValue
pub mod Admin
pub mod AdminLaws
pub mod Mapping
