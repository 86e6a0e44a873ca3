-- ===== src/Shared.antt =====
-- The package shared by every service, shared/src.
pub mod Outbox
pub mod Edition
pub mod AgentLink
