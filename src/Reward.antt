-- ===== src/Reward.antt =====
-- The reward module of the game event server: modules/reward of game-event-server/src.
pub mod Model
pub mod Service
pub mod Controller
pub mod Creation
pub mod Listing
pub mod Examples
