-- ===== src/Script.antt =====
-- native/langhuan/src/script: the header of a feed script.
pub mod Header
pub mod Meta
pub mod Engine
pub mod Encoding
pub mod Protobuf
mod Tests
