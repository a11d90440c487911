-- ===== src/Hub/Rows.antt =====
-- The rows of the tables: the columns that the modelled operations use.
use codex_post_office.Base.{ℕ, String, Bool, List, Option, Json}
use codex_post_office.Hub.States.{
  ActorKind, TaskState, ProjectStatus, GrantStatus, Classification, PlanStage, Status,
}

pub record Actor : Type 0 where
  pub actor_id : ℕ
  pub actor_kind : ActorKind
  pub role : String
  pub status : Status

pub record Capability : Type 0 where
  pub capability_id : ℕ
  pub actor_id : ℕ
  pub secret_sha256 : ℕ
  pub allowed_operations : List String
  pub status : Status
  pub expires_at : Option ℕ

-- A row of `exact_author_actions`.
pub record AuthorAction : Type 0 where
  pub action_id : ℕ
  pub actor_id : ℕ
  pub operation : String
  pub scope_json : ℕ
  pub confirmation_sha256 : ℕ
  pub consumed_event_id : Option ℕ

-- The parsed `scope_json` of a grant or `access_scope_json` of an endpoint.
pub record Scope : Type 0 where
  pub project_ids : List ℕ
  pub task_ids : List ℕ
  pub package_ids : List ℕ
  pub scope_domains : List ℕ

-- A row of `authority_grants`.
pub record Grant : Type 0 where
  pub grant_id : ℕ
  pub grantor_actor_id : ℕ
  pub recipient_actor_id : ℕ
  pub allowed_operations : List String
  pub scope : Scope
  pub classification : Classification
  pub maximum_uses : Option ℕ
  pub remaining_uses : Option ℕ
  pub status : GrantStatus
  pub rationale : ℕ
  pub source_author_action_id : Option ℕ
  pub expires_at : Option ℕ
  pub created_event_id : Option ℕ
  pub revoked_event_id : Option ℕ

pub record Project : Type 0 where
  pub project_id : ℕ
  pub code : ℕ
  pub display_name : ℕ
  pub kind : ℕ
  pub status : ProjectStatus
  pub local_project_root : ℕ
  pub local_cas_root : ℕ
  pub local_backup_root : ℕ
  pub policy_root : Option ℕ
  pub aggregate_version : ℕ
  pub aggregate_root : ℕ
  pub created_event_id : Option ℕ

-- A row of `project_mail_domains`.
pub record MailDomain : Type 0 where
  pub project_id : ℕ
  pub mail_domain : ℕ

-- The parameters of `project.planCreate` and `task.planCreate`, which the plan retains.
pub record ProjectPayload : Type 0 where
  pub project_id : ℕ
  pub project_code : ℕ
  pub display_name : ℕ
  pub kind : ℕ
  pub local_project_root : ℕ
  pub local_cas_root : ℕ
  pub local_backup_root : ℕ
  pub policy_root : Option ℕ
  pub domains : List ℕ

pub record TaskPayload : Type 0 where
  pub task_id : ℕ
  pub project_id : ℕ
  pub task_kind : String
  pub objective : ℕ
  pub mutable_package_ids : List ℕ
  pub acceptance_contract_root : ℕ
  pub authority_grant_id : ℕ

pub data Payload : Type 0 where
  project_payload : ProjectPayload → Payload
  task_payload : TaskPayload → Payload

pub record Plan : Type 0 where
  pub plan_id : ℕ
  pub aggregate_type : String
  pub aggregate_id : ℕ
  pub authority_id : ℕ
  pub requested_resources : Json
  pub payload : Payload
  pub plan_root : ℕ
  pub stage : PlanStage
  pub aggregate_version : ℕ
  pub aggregate_root : ℕ
  pub created_event_id : Option ℕ
  pub committed_event_id : Option ℕ

pub record Task : Type 0 where
  pub task_id : ℕ
  pub project_id : ℕ
  pub task_kind : String
  pub objective : ℕ
  pub mutable_package_id : Option ℕ
  pub acceptance_contract_root : ℕ
  pub authority_grant_id : ℕ
  pub state : TaskState
  pub aggregate_version : ℕ
  pub aggregate_root : ℕ
  pub created_event_id : Option ℕ

-- A row of `task_endpoint_bindings`; no event stands for the text PENDING.
pub record Binding : Type 0 where
  pub task_id : ℕ
  pub endpoint_id : ℕ
  pub mailbox_id : ℕ
  pub mailbox_generation : ℕ
  pub bound_event_id : Option ℕ

pub record TaskResponse : Type 0 where
  pub response_id : ℕ
  pub task_id : ℕ
  pub message_id : ℕ
  pub evidence_roots : List ℕ
  pub recorded_event_id : Option ℕ

pub record TaskReview : Type 0 where
  pub review_id : ℕ
  pub task_id : ℕ
  pub decision : TaskState
  pub rationale : ℕ
  pub recorded_event_id : Option ℕ

pub record Endpoint : Type 0 where
  pub endpoint_id : ℕ
  pub actor_id : ℕ
  pub project_id : ℕ
  pub task_id : Option ℕ
  pub role : String
  pub access_scope : Scope
  pub status : Status
  pub startup_root : ℕ
  pub created_event_id : Option ℕ

-- One generation of a mailbox.
pub record Mailbox : Type 0 where
  pub mailbox_id : ℕ
  pub generation : ℕ
  pub mail_domain : ℕ
  pub endpoint_id : ℕ
  pub status : Status
  pub created_event_id : Option ℕ

-- A row of `attention_items`.
pub record Attention : Type 0 where
  pub attention_id : ℕ
  pub entity_type : String
  pub entity_id : ℕ
  pub severity : String
  pub reason_code : String
  pub details : Json
  pub recorded_at : ℕ
  pub is_open : Bool
  pub resolved_at : Option ℕ

-- A row of `runtime_receipts`.
pub record Receipt : Type 0 where
  pub receipt_id : ℕ
  pub dispatch_id : ℕ
  pub receipt_kind : String
  pub evidence : Json
  pub evidence_root : ℕ
  pub recorded_at : ℕ

-- A row of `hub_events`.
pub record Event : Type 0 where
  pub sequence : ℕ
  pub event_id : ℕ
  pub occurred_at : ℕ
  pub actor_id : ℕ
  pub operation : String
  pub capability_id : ℕ
  pub authority_grant_id : Option ℕ
  pub exact_author_action_id : Option ℕ
  pub aggregate_type : String
  pub aggregate_id : ℕ
  pub aggregate_version : ℕ
  pub before_state_root : ℕ
  pub after_state_root : ℕ
  pub result : Json
  pub payload_sha256 : ℕ
  pub previous_event_sha256 : Option ℕ
  pub event_sha256 : ℕ
