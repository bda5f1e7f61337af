-- ===== src/EventRequest.antt =====
-- The event request module of the game event server: modules/event-request of
-- game-event-server/src. Users ask for an event's reward, and the conditions of the event decide.
pub mod Model
pub mod Condition
pub mod Service
pub mod Listing
pub mod Eligibility
pub mod Controller
pub mod Claims
pub mod Unique
pub mod Agreement
pub mod UserIds
pub mod Examples
