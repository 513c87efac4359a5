-- ===== src/Orchestration/PauseGroup.antt =====
-- packages/orchestration/src/pause-group.ts: what is kept of the actions that a paused turn asks
-- for.
pub mod Redaction
pub mod Actions
pub mod Capture
pub mod Laws
mod Examples
