-- ===== src/Kernel.antt =====
-- The operational kernel (plugins/post-office-next/scripts/post_office/kernel.py).
pub mod Transaction
pub mod Events
pub mod Documents
pub mod Authority
pub mod Grows
pub mod Steps
pub mod Moves
pub mod Spending
pub mod Mutations
pub mod Projections
pub mod Operation
pub mod Replay
