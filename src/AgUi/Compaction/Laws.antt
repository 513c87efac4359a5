-- ===== src/AgUi/Compaction/Laws.antt =====
-- Laws of packages/integrations/ag-ui/src/messages-compaction.ts.
pub mod Streams
pub mod Parts
pub mod Others
pub mod Room
pub mod Limits
