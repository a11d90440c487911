-- ===== src/Hub/States.antt =====
-- The vocabularies of the status columns (the CHECK constraints of the migrations), their spelling
-- in the hashed documents, and the membership tests that the handlers make.
use codex_post_office.Base.{String, Bool, true, false}

pub data ActorKind : Type 0 where
  human browser courier endpoint_actor system : ActorKind

pub data TaskState : Type 0 where
  proposed triaged awaiting_authority provisioning ready active blocked : TaskState
  response_returned under_review accepted correction_required rejected closed cancelled : TaskState

pub data ProjectStatus : Type 0 where
  proposed provisioning active paused provisioning_failed archived : ProjectStatus

pub data GrantStatus : Type 0 where
  active exhausted expired revoked : GrantStatus

pub data Classification : Type 0 where
  one_shot standing : Classification

pub data PlanStage : Type 0 where
  plan authorised ids_reserved external_pending : PlanStage
  verified committed ready compensating : PlanStage
  rolled_back orphaned_review : PlanStage

-- Of an actor, a capability, an endpoint or a mailbox generation.
pub data Status : Type 0 where
  provisional active expired retired revoked : Status

pub data MessageState : Type 0 where
  draft bundled custody_recorded registered : MessageState
  delivered acknowledged response_returned reviewed : MessageState
  closed quarantined superseded_before_registration cancelled_before_delivery : MessageState
  blocked : MessageState

pub data AttemptState : Type 0 where
  pending collected validated stored : AttemptState
  delivered receipted failed_retryable failed_final : AttemptState
  quarantined tombstoned_duplicate cancelled : AttemptState

pub data DispatchState : Type 0 where
  ready leased sent receipted waiting_for_recipient : DispatchState
  reconciliation_required terminal_failure cancelled : DispatchState

pub data Channel : Type 0 where
  native_task playwright_browser : Channel

abbrev pub is_active : Status → Bool
is_active Status.active = true
is_active _ = false

abbrev pub is_active_project : ProjectStatus → Bool
is_active_project ProjectStatus.active = true
is_active_project _ = false

abbrev pub is_active_grant : GrantStatus → Bool
is_active_grant GrantStatus.active = true
is_active_grant _ = false

abbrev pub task_state_text : TaskState → String
task_state_text TaskState.proposed = "PROPOSED"
task_state_text TaskState.triaged = "TRIAGED"
task_state_text TaskState.awaiting_authority = "AWAITING_AUTHORITY"
task_state_text TaskState.provisioning = "PROVISIONING"
task_state_text TaskState.ready = "READY"
task_state_text TaskState.active = "ACTIVE"
task_state_text TaskState.blocked = "BLOCKED"
task_state_text TaskState.response_returned = "RESPONSE_RETURNED"
task_state_text TaskState.under_review = "UNDER_REVIEW"
task_state_text TaskState.accepted = "ACCEPTED"
task_state_text TaskState.correction_required = "CORRECTION_REQUIRED"
task_state_text TaskState.rejected = "REJECTED"
task_state_text TaskState.closed = "CLOSED"
task_state_text TaskState.cancelled = "CANCELLED"

abbrev pub project_status_text : ProjectStatus → String
project_status_text ProjectStatus.proposed = "PROPOSED"
project_status_text ProjectStatus.provisioning = "PROVISIONING"
project_status_text ProjectStatus.active = "ACTIVE"
project_status_text ProjectStatus.paused = "PAUSED"
project_status_text ProjectStatus.provisioning_failed = "PROVISIONING_FAILED"
project_status_text ProjectStatus.archived = "ARCHIVED"

abbrev pub grant_status_text : GrantStatus → String
grant_status_text GrantStatus.active = "ACTIVE"
grant_status_text GrantStatus.exhausted = "EXHAUSTED"
grant_status_text GrantStatus.expired = "EXPIRED"
grant_status_text GrantStatus.revoked = "REVOKED"

abbrev pub classification_text : Classification → String
classification_text one_shot = "ONE_SHOT"
classification_text standing = "STANDING"

abbrev pub status_text : Status → String
status_text Status.provisional = "PROVISIONAL"
status_text Status.active = "ACTIVE"
status_text Status.expired = "EXPIRED"
status_text Status.retired = "RETIRED"
status_text Status.revoked = "REVOKED"

abbrev pub actor_kind_text : ActorKind → String
actor_kind_text human = "HUMAN"
actor_kind_text browser = "BROWSER"
actor_kind_text courier = "COURIER"
actor_kind_text endpoint_actor = "ENDPOINT"
actor_kind_text system = "SYSTEM"

abbrev pub dispatch_state_text : DispatchState → String
dispatch_state_text DispatchState.ready = "READY"
dispatch_state_text DispatchState.leased = "LEASED"
dispatch_state_text DispatchState.sent = "SENT"
dispatch_state_text DispatchState.receipted = "RECEIPTED"
dispatch_state_text DispatchState.waiting_for_recipient = "WAITING_FOR_RECIPIENT"
dispatch_state_text DispatchState.reconciliation_required = "RECONCILIATION_REQUIRED"
dispatch_state_text DispatchState.terminal_failure = "TERMINAL_FAILURE"
dispatch_state_text DispatchState.cancelled = "CANCELLED"

abbrev pub channel_text : Channel → String
channel_text native_task = "NATIVE_TASK"
channel_text playwright_browser = "PLAYWRIGHT_BROWSER"

abbrev pub plan_stage_text : PlanStage → String
plan_stage_text PlanStage.plan = "PLAN"
plan_stage_text PlanStage.authorised = "AUTHORISED"
plan_stage_text PlanStage.ids_reserved = "IDS_RESERVED"
plan_stage_text PlanStage.external_pending = "EXTERNAL_PENDING"
plan_stage_text PlanStage.verified = "VERIFIED"
plan_stage_text PlanStage.committed = "COMMITTED"
plan_stage_text PlanStage.ready = "READY"
plan_stage_text PlanStage.compensating = "COMPENSATING"
plan_stage_text PlanStage.rolled_back = "ROLLED_BACK"
plan_stage_text PlanStage.orphaned_review = "ORPHANED_REVIEW"

abbrev pub message_state_text : MessageState → String
message_state_text MessageState.draft = "DRAFT"
message_state_text MessageState.bundled = "BUNDLED"
message_state_text MessageState.custody_recorded = "CUSTODY_RECORDED"
message_state_text MessageState.registered = "REGISTERED"
message_state_text MessageState.delivered = "DELIVERED"
message_state_text MessageState.acknowledged = "ACKNOWLEDGED"
message_state_text MessageState.response_returned = "RESPONSE_RETURNED"
message_state_text MessageState.reviewed = "REVIEWED"
message_state_text MessageState.closed = "CLOSED"
message_state_text MessageState.quarantined = "QUARANTINED"
message_state_text MessageState.superseded_before_registration = "SUPERSEDED_BEFORE_REGISTRATION"
message_state_text MessageState.cancelled_before_delivery = "CANCELLED_BEFORE_DELIVERY"
message_state_text MessageState.blocked = "BLOCKED"

abbrev pub attempt_state_text : AttemptState → String
attempt_state_text AttemptState.pending = "PENDING"
attempt_state_text AttemptState.collected = "COLLECTED"
attempt_state_text AttemptState.validated = "VALIDATED"
attempt_state_text AttemptState.stored = "STORED"
attempt_state_text AttemptState.delivered = "DELIVERED"
attempt_state_text AttemptState.receipted = "RECEIPTED"
attempt_state_text AttemptState.failed_retryable = "FAILED_RETRYABLE"
attempt_state_text AttemptState.failed_final = "FAILED_FINAL"
attempt_state_text AttemptState.quarantined = "QUARANTINED"
attempt_state_text AttemptState.tombstoned_duplicate = "TOMBSTONED_DUPLICATE"
attempt_state_text AttemptState.cancelled = "CANCELLED"
