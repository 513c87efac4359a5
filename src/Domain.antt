-- ===== src/Domain.antt =====
-- packages/domain: the business rules and state transitions.
pub mod Transitions
pub mod Approvals
pub mod Tasks
pub mod CoworkerDrafts
