-- ===== src/Orchestration/Watchdog.antt =====
-- packages/orchestration/src/watchdog.ts: the state of the watchdog, the events it observes, and in
-- `Laws` what is proved of it.
pub mod State
pub mod Events
pub mod Registry
pub mod Sound
pub mod Observe
pub mod Laws
mod Examples
