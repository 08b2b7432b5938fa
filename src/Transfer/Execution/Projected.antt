-- ===== src/Transfer/Execution/Projected.antt =====
-- services/transferExecution.ts: what the projected state of an operation says of its legs.
