-- ===== src/Gateway.antt =====
-- The API gateway: api-gateway-server/src/gateway.
pub mod Path
pub mod Routes
pub mod Service
pub mod Roles
pub mod Controller
pub mod Headers
pub mod Proxy
pub mod Queue
pub mod Edge
pub mod Health
pub mod Statuses
pub mod Correlation
pub mod Forwarding
pub mod Delivery
pub mod Guards
pub mod Reached
pub mod Anonymous
pub mod Authorization
pub mod Selection
pub mod WrongMethod
pub mod Table
pub mod Nodes
pub mod Segments
pub mod Runs
pub mod Matching
mod Examples
mod ForwardingExamples
mod EdgeExamples
mod QueueExamples
