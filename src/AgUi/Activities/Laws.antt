-- ===== src/AgUi/Activities/Laws.antt =====
-- Laws of packages/integrations/ag-ui/src/activity-reducer.ts.
pub mod Identity
pub mod Steps
pub mod Entries
pub mod Runs
