-- ===== src/Domain/Transitions.antt =====
-- packages/domain/src/transitions.ts: the transition tables and their guards, one child a machine,
-- and in `Laws` what is proved of their histories.
pub mod Task
pub mod Run
pub mod Draft
pub mod Step
pub mod Turn
pub mod Pause
pub mod Proposal
pub mod Interrupt
pub mod Interaction
pub mod Laws
mod Examples
