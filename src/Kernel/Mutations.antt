-- ===== src/Kernel/Mutations.antt =====
-- The mutation handlers of `_execute_mutation`, one module for each family of operations.
pub mod Common
pub mod Tasks
pub mod Grants
pub mod Endpoints
pub mod Mailboxes
pub mod Plans
pub mod Projects
pub mod Packages
pub mod Interfaces
pub mod Cycles
pub mod MessagePlans
pub mod Registration
pub mod Messages
pub mod Reconciliation
pub mod Transports
pub mod WorkflowDrafts
pub mod Workflows
pub mod Orderly
pub mod Execute
pub mod QuietSteps
pub mod Judgements
pub mod LogGrows
pub mod Guarded
pub mod SingleUse
pub mod TaskStates
pub mod Lifecycle
pub mod MessageStates
pub mod MessageLifecycle
pub mod Planned
pub mod Custody
pub mod Discrepancies
pub mod TransportStates
pub mod Resolution
pub mod Preview
pub mod Rotation
pub mod Domains
