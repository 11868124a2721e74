-- ===== src/Server.antt =====
-- The server of src/core/server: its clients and their objects, the messages it takes, and the
-- socket that dispatches them.
pub mod State
pub mod Client
pub mod Parser
pub mod Socket
pub mod Requests
pub mod Objects
pub mod Errors
pub mod Creations
pub mod Calls
pub mod Polls
pub mod Listener
pub mod Events
pub mod PollThread
