-- ===== src/Tests.antt =====
-- The theorems at concrete inputs, by the parts of the program.
mod Streams
mod Packets
mod Sessions
mod Servers
