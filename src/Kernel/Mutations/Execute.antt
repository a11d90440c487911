-- ===== src/Kernel/Mutations/Execute.antt =====
-- `_execute_mutation` over the modelled operations.
use codex_post_office.Base.{ℕ, String, Bool, List, Json}
use codex_post_office.Hub.{Payload, MessageDraft, BundleDraft}
use codex_post_office.Kernel.Transaction.{Tx}
use codex_post_office.Kernel.Authority.Call.{Call}
use codex_post_office.Kernel.Authority.Finalize.{Response}
use codex_post_office.Kernel.Mutations.Tasks.{TaskOperation, task_mutation}
use codex_post_office.Kernel.Mutations.Grants.{GrantRequest, grant_mutation, revoke_mutation}
use codex_post_office.Kernel.Mutations.Endpoints.{
  EndpointRequest, allocate_endpoint, revoke_endpoint,
}
use codex_post_office.Kernel.Mutations.Mailboxes.{allocate_mailbox, rotate_generation}
use codex_post_office.Kernel.Mutations.Plans.{plan_mutation, create_mutation}
use codex_post_office.Kernel.Mutations.Projects.{ProjectOperation, project_mutation}
use codex_post_office.Kernel.Mutations.Packages.{
  PackageDraft, PackageOperation, register_package, package_mutation,
}
use codex_post_office.Kernel.Mutations.Interfaces.{InterfaceOperation, interface_mutation}
use codex_post_office.Kernel.Mutations.Workflows.{WorkflowOperation, workflow_mutation}
use codex_post_office.Kernel.Mutations.Cycles.{CycleOperation, cycle_mutation}
use codex_post_office.Kernel.Mutations.MessagePlans.{plan_message, supersede_bundle}
use codex_post_office.Kernel.Mutations.Messages.{MessageOperation, message_mutation}
use codex_post_office.Kernel.Mutations.Reconciliation.{preview_reconciliation, apply_reconciliation}
use codex_post_office.Kernel.Mutations.Transports.{TransportOperation, transport_mutation}

-- The operation with its parameters.
pub data Mutation : Type 0 where
  plan_create : Payload → Mutation
  create : String → ℕ → ℕ → Mutation
  project : ℕ → ProjectOperation → Mutation
  task : ℕ → TaskOperation → Mutation
  grant : GrantRequest → Mutation
  revoke : ℕ → ℕ → Mutation
  endpoint_allocate : EndpointRequest → Mutation
  endpoint_revoke : ℕ → ℕ → Mutation
  mailbox_allocate : ℕ → ℕ → Mutation
  mailbox_rotate : ℕ → ℕ → Mutation
  package_register : PackageDraft → Mutation
  software_package : ℕ → PackageOperation → Mutation
  interface : ℕ → InterfaceOperation → Mutation
  workflow : ℕ → WorkflowOperation → Mutation
  cycle : ℕ → CycleOperation → Mutation
  message_plan : MessageDraft → BundleDraft → Mutation
  bundle_supersede : ℕ → ℕ → BundleDraft → Mutation
  message : MessageOperation → Mutation
  reconcile_preview : ℕ → List ℕ → Mutation
  reconcile_apply : ℕ → ℕ → Mutation
  transport : ℕ → TransportOperation → Mutation

-- What the handlers take from outside: the digest of a document, the identifiers that are digests
-- of other identifiers or of documents, the operations that can be granted, the order of texts, and
-- the test that a reference contains the text credential or secret.
pub record Environment : Type 0 where
  pub sha256_json : Json → ℕ
  pub response_id : ℕ → ℕ → ℕ
  pub actor_name : ℕ → ℕ
  pub implemented : List String
  pub sort_names : List String → List String
  pub rehome_id : ℕ → ℕ
  pub context_bundle_id : ℕ → ℕ
  pub names_secret : ℕ → Bool

unfoldable pub execute_mutation : Environment → Call → Mutation → Tx Response
execute_mutation v c (plan_create p) = plan_mutation v.sha256_json c p
execute_mutation v c (create kind plan root) = create_mutation v.sha256_json c kind plan root
execute_mutation v c (project id op) = project_mutation v.sha256_json c id op
execute_mutation v c (task id op) = task_mutation v.sha256_json v.response_id c id op
execute_mutation v c (grant g) = grant_mutation v.sha256_json v.implemented v.sort_names c g
execute_mutation v c (revoke id reason) = revoke_mutation v.sha256_json c id reason
execute_mutation v c (endpoint_allocate r) = allocate_endpoint v.sha256_json v.actor_name c r
execute_mutation v c (endpoint_revoke id reason) = revoke_endpoint v.sha256_json c id reason
execute_mutation v c (mailbox_allocate e d) = allocate_mailbox v.sha256_json c e d
execute_mutation v c (mailbox_rotate id reason) = rotate_generation v.sha256_json c id reason
execute_mutation v c (package_register d) = register_package v.sha256_json c d
execute_mutation v c (software_package id op) = package_mutation v.sha256_json v.rehome_id c id op
execute_mutation v c (interface id op) = interface_mutation v.sha256_json c id op
execute_mutation v c (workflow id op) =
    workflow_mutation v.sha256_json v.names_secret v.context_bundle_id c id op
execute_mutation v c (cycle id op) = cycle_mutation v.sha256_json c id op
execute_mutation v c (message_plan m b) = plan_message v.sha256_json c m b
execute_mutation v c (bundle_supersede f sha b) = supersede_bundle v.sha256_json c f sha b
execute_mutation v c (message op) = message_mutation v.sha256_json c op
execute_mutation v c (reconcile_preview root ids) = preview_reconciliation v.sha256_json c root ids
execute_mutation v c (reconcile_apply id root) = apply_reconciliation v.sha256_json c id root
execute_mutation v c (transport id op) = transport_mutation v.sha256_json c id op
