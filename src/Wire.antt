-- ===== src/Wire.antt =====
-- Bytes on the wire: byte order, the buffers' reader and writer, and the peers' messages.
pub mod Endian
pub mod Endian64
pub mod Bytes
pub mod Messages
pub mod Handshake
pub mod Framing
pub mod Received
pub mod Sent
