-- ===== src/Message.antt =====
-- The messages of src/core/message/messages: for each the constructor that decodes it out of a
-- buffer at an offset, and the one that encodes it. A decoder returns what it sets, and `m_len`
-- last; `m_data`, of which Trace makes a text for the log, is left out.
pub mod Hello
pub mod Handshake
pub mod BindProtocol
pub mod Numbers
pub mod FatalError
pub mod Generic
pub mod RoundTrip
pub mod Trace
