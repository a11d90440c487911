-- ===== src/Kernel/Authority.antt =====
-- Who may change what: authentication, scopes, the authority basis of a mutation and its use.
pub mod Call
pub mod Scopes
pub mod Basis
pub mod Finalize
pub mod Actions
pub mod Authorised
pub mod Permitted
pub mod Conditions
pub mod Permits
pub mod Untouched
