-- ===== src/Orchestration/MultiAgentRun/Laws.antt =====
-- What is proved of direct runs.
pub mod Plan
pub mod Aggregate
