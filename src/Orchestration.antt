-- ===== src/Orchestration.antt =====
-- packages/orchestration: turns, pauses, tools and runs.
pub mod TurnQueue
pub mod StopCorrection
pub mod MultiAgentRun
pub mod Capability
pub mod Rotation
pub mod Router
pub mod ContextDelivery
pub mod Reconcile
pub mod Watchdog
pub mod PauseGroup
pub mod PauseResume
