-- ===== src/Orchestration/Capability/Laws.antt =====
-- What is proved of the intersections.
pub mod Tools
pub mod Skills
