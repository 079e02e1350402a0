-- ===== src/Workflow.antt =====
-- The device test workflow (runtime/internal/workflow/devicetest.go, types.go). A workflow is a
-- deterministic function of what its activities, timers and signals answer, which Temporal records:
-- here the answers are arguments, and the calls of activities that only write are the output.
pub mod Types
pub mod Ids
pub mod Scope
pub mod Signatures
pub mod Await
pub mod Attempt
pub mod Retry
pub mod Main
mod Tests
