-- ===== src/Protocol.antt =====
-- The wire protocol (protocol/src): lines in, replies out.
pub mod Tokens
pub mod Words
pub mod Numbers
pub mod Decimal
pub mod Command
pub mod Parser
pub mod Rendering
pub mod RoundTrip
pub mod Accepted
pub mod Replies
pub mod ReplyParser
pub mod Chunks
