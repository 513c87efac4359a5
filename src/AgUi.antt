-- ===== src/AgUi.antt =====
-- packages/integrations/ag-ui: the presentation state of the web client.
pub mod Patch
pub mod Lanes
pub mod Delta
pub mod Activities
pub mod ToolCalls
pub mod Compaction
pub mod UiState
