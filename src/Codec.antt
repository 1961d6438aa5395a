-- ===== src/Codec.antt =====
-- The text payloads: "key1=value1&key2=value2", read by the server and by the client, and base64.
pub mod Kv
pub mod Pieces
pub mod RoundTrip
pub mod Base64
