-- ===== src/Domain/Transitions/Laws.antt =====
-- What is proved of the histories that the transition tables accept.
pub mod Lifecycles
pub mod Gates
