-- ===== src/DeadReckoning.antt =====
-- Dead reckoning: src/dr_server.c computes the game from the events that it receives and sends its
-- states; src/game_deadreckoning.c shows an estimate, which goes on from the last state that came.
pub mod Client
pub mod Server
mod Runs
