-- ===== src/AgUi/UiState/Laws.antt =====
-- Laws of packages/integrations/ag-ui/src/ui-state-reducer.ts.
pub mod Moves
pub mod Threads
pub mod Channel
