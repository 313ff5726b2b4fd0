-- ===== src/Packets.antt =====
-- src/packets.h and src/packets.c: the packets that clients and servers exchange.
pub mod Tag
pub mod Layout
pub mod Types
mod Runs
pub mod Serialize
pub mod Deserialize
pub mod Print
