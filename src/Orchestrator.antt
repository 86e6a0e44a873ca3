-- ===== src/Orchestrator.antt =====
-- The pure parts of the orchestrator (services/orchestrator/src).
pub mod Users
pub mod Access
pub mod Memory
pub mod LoginLimiter
pub mod Transfer
pub mod TransferRoute
pub mod Reconcile
pub mod Retention
pub mod Ports
pub mod DeploymentQuery
pub mod Capacity
pub mod Entitlements
mod Tests
mod ServerTests
mod PageTests
pub mod LinkHost
pub mod LinkRegistry
pub mod Store
pub mod NodeRegistry
pub mod Lifecycle
pub mod AccessGuard
pub mod TeamRoutes
pub mod Cron
pub mod Scheduler
mod LinkTests
mod StoreTests
mod ScheduleTests
mod TeamTests
