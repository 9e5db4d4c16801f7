-- ===== src/Game.antt =====
-- The multiplayer game of C-Multiplayer-game: its protocol bytes, its server and its client.
pub mod Protocol
pub mod Types
pub mod State
pub mod Location
pub mod Invariant
pub mod Setup
pub mod Updates
pub mod Life
pub mod Players
pub mod Random
pub mod Monsters
pub mod Round
pub mod Updater
mod Tests
pub mod Session
pub mod Client
