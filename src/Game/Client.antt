-- ===== src/Game/Client.antt =====
-- C-Multiplayer-game/src/client.
pub mod Updates
pub mod Commands
pub mod Talk
mod Tests
