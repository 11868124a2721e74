-- ===== src/Client.antt =====
-- The client of src/core/client: its objects, the messages it takes and sends, and the loops that
-- wait for the server.
pub mod State
pub mod Operations
pub mod Parser
pub mod Dispatch
pub mod Sequences
pub mod Calls
pub mod ServerSpecs
pub mod Flush
pub mod Replies
pub mod Handshakes
pub mod Objects
pub mod Binds
pub mod Deferred
pub mod Hangups
pub mod Versions
pub mod Roundtrips
pub mod Connect
