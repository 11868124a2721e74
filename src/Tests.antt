-- ===== src/Tests.antt =====
-- The theorems at concrete inputs.
mod Data
mod Messages
mod Server
mod Client
mod Protocol
mod Events
mod Scanner
mod Reads
mod Sockets
mod Trace
