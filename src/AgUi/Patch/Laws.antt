-- ===== src/AgUi/Patch/Laws.antt =====
-- Laws of packages/integrations/ag-ui/src/json-patch.ts.
pub mod Equal
pub mod Places
pub mod Sequence
