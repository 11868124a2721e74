-- ===== src/Message/RoundTrip.antt =====
-- Every message that an encoder writes is decoded from anywhere in a buffer: to the same values,
-- and to its own length.
pub mod Numbers
pub mod Exact
pub mod Texts
pub mod Text
pub mod Records
