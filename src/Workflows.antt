-- ===== src/Workflows.antt =====
-- workflows: the Temporal activities, the adapter contract, the simulated adapter, the audit trail
-- and the saga workflow.
pub mod Adapter
pub mod Activities
pub mod Fence
pub mod Once
pub mod Simulated
pub mod Audit
pub mod Saga
