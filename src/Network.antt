-- ===== src/Network.antt =====
-- The structured stream transport (libcore/src/network): packets over TCP connections.
mod Tests
pub mod Uint30
pub mod Frame
pub mod StreamStatus
pub mod TcpStream
pub mod Handshake
pub mod ReadBuffer
pub mod SendQueue
pub mod WireSender
pub mod StreamBuilder
pub mod MultiplexedSocket
pub mod Link
