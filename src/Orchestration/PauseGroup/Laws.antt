-- ===== src/Orchestration/PauseGroup/Laws.antt =====
-- Laws of packages/orchestration/src/pause-group.ts.
pub mod Plan
pub mod Redacted
