-- ===== src/Wire.antt =====
-- The bus wire v1 protocol: include/hiim/wire and src/wire.
pub mod Bytes
pub mod Header
pub mod SysCmd
pub mod Auth
pub mod FrameBuffer
mod Tests
