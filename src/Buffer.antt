-- ===== src/Buffer.antt =====
-- src/buffer.h and src/buffer.c: a byte buffer with a read and a write position.
pub mod Types
pub mod Push
pub mod Pop
