-- ===== src/Connection.antt =====
-- src/sculk/protocol/connection: what a session sends and receives, and the threads that run it.
pub mod Batch
pub mod Crypto
pub mod Compression
pub mod Zlib
pub mod Envelope
pub mod Outbound
pub mod Strand
pub mod Schedule
pub mod Ingress
