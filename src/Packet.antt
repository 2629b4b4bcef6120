-- ===== src/Packet.antt =====
-- The packets of src/sculk/protocol/codec: their data, their codecs and their dispatch.
pub mod Fits
pub mod Types
pub mod Nbt
pub mod Login
pub mod Resources
pub mod World
pub mod Blocks
pub mod Effects
pub mod Actor
pub mod Player
pub mod Motion
pub mod Windows
pub mod Messages
pub mod Status
pub mod Choices
pub mod Chunk
pub mod Rules
pub mod Tagged
pub mod Dispatch
pub mod Registry
pub mod ReadBack
