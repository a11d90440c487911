-- ===== src/Kernel/Documents.antt =====
-- The state documents whose digests are the aggregate roots: `_grant_state`, `_endpoint_state`,
-- `_mailbox_state`, `_project_state`, `_task_state`, `_plan_state` and `_message_state`.
pub mod Catalogue
pub mod Mail
pub mod Workflow
use codex_post_office.Base.{
  ℕ, String, Option, none, some, List, [], ◌∷◌, ◌++◌, map, Json, null, num, str, arr, obj, opt,
  nums, find, select, ◌==◌, leb, if◌then◌else◌,
}
use codex_post_office.Hub.{
  Hub, Scope, Grant, Endpoint, Mailbox, Project, MailDomain, Task, Binding, Plan, Payload,
  project_payload, task_payload, Message, grant_status_text, classification_text, status_text,
  project_status_text, task_state_text, plan_stage_text, message_state_text,
}

abbrev pub texts : List String → List Json
texts ss = map str ss

pub scope_document : Scope → Json
scope_document s = obj (
    ("projectIds", arr (nums s.project_ids))
    ∷ ("taskIds", arr (nums s.task_ids))
    ∷ ("packageIds", arr (nums s.package_ids))
    ∷ ("mailDomains", arr (nums s.scope_domains))
    ∷ [])

pub grant_state : Grant → Json
grant_state g = obj (
    ("grantId", num g.grant_id)
    ∷ ("grantorActorId", num g.grantor_actor_id)
    ∷ ("recipientActorId", num g.recipient_actor_id)
    ∷ ("allowedOperations", arr (texts g.allowed_operations))
    ∷ ("scope", scope_document g.scope)
    ∷ ("classification", str (classification_text g.classification))
    ∷ ("maximumUses", opt g.maximum_uses)
    ∷ ("remainingUses", opt g.remaining_uses)
    ∷ ("status", str (grant_status_text g.status))
    ∷ ("rationale", num g.rationale)
    ∷ ("sourceAuthorActionId", opt g.source_author_action_id)
    ∷ ("expiresAt", opt g.expires_at)
    ∷ [])

pub endpoint_state : Endpoint → Json
endpoint_state e = obj (
    ("endpointId", num e.endpoint_id)
    ∷ ("actorId", num e.actor_id)
    ∷ ("projectId", num e.project_id)
    ∷ ("taskId", opt e.task_id)
    ∷ ("role", str e.role)
    ∷ ("accessScope", scope_document e.access_scope)
    ∷ ("status", str (status_text e.status))
    ∷ ("startupRoot", num e.startup_root)
    ∷ [])

generation_state : Mailbox → Json
generation_state m = obj (
    ("generation", num m.generation)
    ∷ ("mailDomain", num m.mail_domain)
    ∷ ("endpointId", num m.endpoint_id)
    ∷ ("status", str (status_text m.status))
    ∷ [])

pub mailbox_state : List Mailbox → ℕ → Json
mailbox_state rows mailbox_id =
    obj (("mailboxId", num mailbox_id) ∷ ("generations", arr (map generation_state rows)) ∷ [])

-- `ORDER BY value`: the insertion of one value into an ordered list
insert_ordered : ℕ → List ℕ → List ℕ
insert_ordered a [] = a ∷ []
insert_ordered a (b ∷ bs) = if leb a b then a ∷ b ∷ bs else b ∷ insert_ordered a bs

unfoldable pub sorted : List ℕ → List ℕ
unfolding insert_ordered
sorted [] = []
sorted (a ∷ as') = insert_ordered a (sorted as')

abbrev pub domains_of : Hub → ℕ → List ℕ
domains_of h id =
    sorted
      (map (λ d. d.mail_domain) (select (λ (d : MailDomain). d.project_id == id) h.mail_domains))

abbrev pub optional_field : String → Option ℕ → List (String × Json)
optional_field name none = []
optional_field name (some v) = (name, num v) ∷ []

pub project_state : Hub → Project → Json
project_state h p = obj (
    (("id", num p.project_id)
      ∷ ("code", num p.code)
      ∷ ("displayName", num p.display_name)
      ∷ ("kind", num p.kind)
      ∷ ("status", str (project_status_text p.status))
      ∷ ("localProjectRoot", num p.local_project_root)
      ∷ ("localCasRoot", num p.local_cas_root)
      ∷ ("localBackupRoot", num p.local_backup_root)
      ∷ ("mailDomains", arr (nums (domains_of h p.project_id)))
      ∷ [])
    ++ optional_field "policyRoot" p.policy_root)

binding_state : Option Binding → Json
binding_state none = null
binding_state (some b) = obj (
    ("endpointId", num b.endpoint_id)
    ∷ ("mailboxId", num b.mailbox_id)
    ∷ ("mailboxGeneration", num b.mailbox_generation)
    ∷ [])

abbrev pub binding_of : Hub → ℕ → Option Binding
binding_of h id = find (λ (b : Binding). b.task_id == id) h.bindings

pub task_state : Hub → Task → Json
task_state h t = obj (
    ("id", num t.task_id)
    ∷ ("projectId", num t.project_id)
    ∷ ("taskKind", str t.task_kind)
    ∷ ("objective", num t.objective)
    ∷ ("mutablePackageId", opt t.mutable_package_id)
    ∷ ("acceptanceContractRoot", num t.acceptance_contract_root)
    ∷ ("authorityGrantId", num t.authority_grant_id)
    ∷ ("state", str (task_state_text t.state))
    ∷ ("endpointBinding", binding_state (binding_of h t.task_id))
    ∷ [])

unfoldable pub payload_document : Payload → Json
payload_document (project_payload p) = obj (
    (("projectId", num p.project_id)
      ∷ ("projectCode", num p.project_code)
      ∷ ("displayName", num p.display_name)
      ∷ ("kind", num p.kind)
      ∷ ("localProjectRoot", num p.local_project_root)
      ∷ ("localCasRoot", num p.local_cas_root)
      ∷ ("localBackupRoot", num p.local_backup_root)
      ∷ ("mailDomains", arr (nums p.domains))
      ∷ [])
    ++ optional_field "policyRoot" p.policy_root)
payload_document (task_payload p) = obj (
    ("taskId", num p.task_id)
    ∷ ("projectId", num p.project_id)
    ∷ ("taskKind", str p.task_kind)
    ∷ ("objective", num p.objective)
    ∷ ("mutablePackageIds", arr (nums p.mutable_package_ids))
    ∷ ("acceptanceContractRoot", num p.acceptance_contract_root)
    ∷ ("authorityGrantId", num p.authority_grant_id)
    ∷ [])

unfoldable pub plan_state : Plan → Json
plan_state p = obj (
    ("id", num p.plan_id)
    ∷ ("aggregateType", str p.aggregate_type)
    ∷ ("aggregateId", num p.aggregate_id)
    ∷ ("authorityId", num p.authority_id)
    ∷ ("requestedResources", p.requested_resources)
    ∷ ("planRoot", num p.plan_root)
    ∷ ("stage", str (plan_stage_text p.stage))
    ∷ ("payload", payload_document p.payload)
    ∷ [])

-- `row["authority_grant_id"] or row["exact_author_action_id"]`
abbrev basis_id : Option ℕ → Option ℕ → Option ℕ
basis_id none action = action
basis_id (some grant) action = some grant

unfoldable pub message_state : Message → Json
message_state m = obj (
    ("id", num m.message_id)
    ∷ ("domain", num m.mail_domain)
    ∷ ("messageType", num m.message_type)
    ∷ ("senderEndpointId", num m.sender_endpoint_id)
    ∷ ("recipientMailboxId", num m.recipient_mailbox_id)
    ∷ ("recipientGeneration", num m.recipient_generation)
    ∷ ("relatedMessageIds", arr (nums m.related_message_ids))
    ∷ ("authorityBasisId", opt (basis_id m.authority_grant_id m.exact_author_action_id))
    ∷ ("requestedAction", num m.requested_action)
    ∷ ("completionCriteria", num m.completion_criteria)
    ∷ ("contentRoot", num m.content_root)
    ∷ ("semanticCycleId", num m.semantic_cycle_id)
    ∷ ("state", str (message_state_text m.state))
    ∷ [])
