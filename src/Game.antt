-- ===== src/Game.antt =====
-- internal/handler: a live game, from its lobby to its archive.
pub mod Scoring
pub mod Tables
pub mod Lobby
pub mod Rounds
pub mod Ask
pub mod Answer
pub mod Submit
pub mod Finish
pub mod Moves
pub mod Steps
pub mod Scores
pub mod Status
pub mod Podium
