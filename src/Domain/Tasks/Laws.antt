-- ===== src/Domain/Tasks/Laws.antt =====
-- What the task grants authorise.
pub mod Foreign
pub mod Sound
pub mod Monotone
pub mod Materialized
