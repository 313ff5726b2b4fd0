-- ===== src/Balls.antt =====
-- src/balls/balls.h and src/balls/balls.c: the simulated game.
pub mod Types
pub mod Initial
pub mod Compare
pub mod Collide
pub mod Advance
pub mod Runs
pub mod Sorting
