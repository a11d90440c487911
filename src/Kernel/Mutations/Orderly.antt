-- ===== src/Kernel/Mutations/Orderly.antt =====
-- The handlers of packages, interfaces, cycles, messages, reconciliations, transports and workflows
-- are orderly.
pub mod Catalogue
pub mod Mail
pub mod Transport
pub mod Workflow
