-- ===== src/Auth.antt =====
-- The auth server: the users, the tokens, and the end of a session, in users, tokens and auth of
-- auth-server/src.
pub mod Users
pub mod Tokens
pub mod Memory
pub mod Session
pub mod Guards
pub mod Server
pub mod Edge
pub mod Health
pub mod SameRoles
pub mod SessionRoles
pub mod AdminGuard
pub mod Escalation
pub mod Requests
pub mod Revoked
pub mod Refused
pub mod LoggedOut
pub mod MissedLogout
pub mod SessionLaws
pub mod Login
pub mod Logout
pub mod Rotation
pub mod Renewal
mod Examples
pub mod TokenExamples
pub mod PassportMemory
pub mod ServerExamples
mod LoggedOutExamples
mod MissedLogoutExamples
