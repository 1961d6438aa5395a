-- ===== src/Wire.antt =====
-- The 32-byte header and the byte streams that carry it, on the server and on the client.
pub mod Word
pub mod Header
pub mod Client
pub mod Stream
pub mod Sending
pub mod Packet
pub mod TestClient
