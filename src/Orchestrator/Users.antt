-- ===== src/Orchestrator/Users.antt =====
-- The platform role of an account (services/orchestrator/src/users.ts).
pub data PlatformRole : Type 0 where
  owner : PlatformRole
  admin : PlatformRole
  user : PlatformRole
