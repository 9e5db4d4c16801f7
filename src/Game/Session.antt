-- ===== src/Game/Session.antt =====
-- What the thread that serves the sockets does with the events of the clients:
-- `handle_player_event` of C-Multiplayer-game/src/server/main.c and the functions that it calls.
pub mod Types
pub mod Names
pub mod Choices
pub mod Commands
pub mod Events
pub mod Arrival
pub mod Others
pub mod Loop
mod Tests
