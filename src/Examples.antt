-- ===== src/Examples.antt =====
-- Concrete runs, and the theorems applied to them.
mod Canonical
mod Data
mod Kernel
mod Mail
mod Transport
