-- ===== src/Event.antt =====
-- The event module of the game event server: modules/event of game-event-server/src.
pub mod Model
pub mod Query
pub mod Lookup
pub mod Write
pub mod Steps
pub mod Refusal
pub mod Controller
pub mod Examples
