-- ===== src/Conversation.antt =====
-- A client of pipebomb/client.py and its session in pipebomb/server.py, from call to answer.
pub mod Call
pub mod KeyValue
pub mod Login
pub mod Mail
pub mod Sizes
pub mod Apart
pub mod Post
pub mod Fetch
pub mod Mailbox
pub mod Joining
