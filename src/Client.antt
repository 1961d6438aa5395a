-- ===== src/Client.antt =====
-- The C++ part of the Android client, app/src/main/cpp/, but for its framing, which is in Wire.
pub mod Hex
pub mod Sha256
pub mod Crypto
pub mod Checksum
pub mod Serializer
pub mod Socket
pub mod Native
