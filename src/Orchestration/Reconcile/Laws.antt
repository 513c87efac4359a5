-- ===== src/Orchestration/Reconcile/Laws.antt =====
-- What is proved of the creation and the reconciliation of turns.
pub mod Acts
pub mod Decide
pub mod Handler
pub mod Response
pub mod Protocol
pub mod Resume
pub mod Input
