-- ===== src/Runtime.antt =====
-- The transport runtime (runtime.py): dispatches, their leases, and the delivery evidence.
pub mod Courier
pub mod Dispatches
pub mod Complete
pub mod Claim
pub mod Reconcile
pub mod LogGrows
pub mod Resend
pub mod Evidence
pub mod Clash
pub mod Exclusive
