-- ===== src/Kernel/Events.antt =====
-- The append-only event log: `append_hub_event`, `_aggregate_position`, the compare-and-swap gate
-- `assert_aggregate_concurrency`, and the verification `_validate_hub_event_chain`.
pub mod Query
pub mod Append
pub mod Chain
pub mod History
pub mod Growth
