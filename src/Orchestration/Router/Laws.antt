-- ===== src/Orchestration/Router/Laws.antt =====
-- Laws of the message router, packages/orchestration/src/router.ts.
pub mod Explicit
pub mod Handles
pub mod Team
pub mod Recipients
