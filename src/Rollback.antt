-- ===== src/Rollback.antt =====
-- What src/game_timewarp.c and src/game_fasteventordering.c have in common: a client that keeps its
-- past states and all events by frame, and computes again the states behind an event that comes late.
pub mod Cells
pub mod Keys
pub mod Loop
pub mod Main
pub mod Replay
pub mod Runs
