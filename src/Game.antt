-- ===== src/Game.antt =====
-- The game event server as a whole: its controllers over its three collections.
pub mod Server
pub mod Reads
pub mod Effects
pub mod Answers
pub mod History
pub mod Registry
pub mod Filter
pub mod Clients
mod Examples
