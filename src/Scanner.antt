-- ===== src/Scanner.antt =====
-- The protocol scanner (scanner/main.cpp): it reads the specification of a protocol and writes the
-- C++ of its objects, for a client or for a server.
pub mod Text
pub mod Types
pub mod Protocol
pub mod Header
pub mod Client
pub mod Server
pub mod Main
pub mod Generated
pub mod Arguments
pub mod Naming
pub mod Numbering
