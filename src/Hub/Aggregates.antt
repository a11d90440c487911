-- ===== src/Hub/Aggregates.antt =====
-- The rows of `workflow_aggregates`: capability requests, change sets, integration candidates and
-- context bundles.
use codex_post_office.Base.{ℕ, String, List, Option}

-- OPEN, the outcomes of triage, and those of fulfilment.
pub data CapabilityStatus : Type 0 where
  opened match_existing change_existing adapter_required new_package_required : CapabilityStatus
  fgpm_core_issue hub_issue deferred rejected fulfilled partial withdrawn : CapabilityStatus

pub data ChangeSetState : Type 0 where
  proposed tasks_authorised tasks_active candidates_ready integration : ChangeSetState
  accepted partial rejected closed : ChangeSetState

pub data CandidateState : Type 0 where
  validated rejected : CandidateState

pub data TestStatus : Type 0 where
  passed failed skipped : TestStatus

pub record CapabilityRequest : Type 0 where
  pub request_id : ℕ
  pub requesting_project_id : ℕ
  pub requesting_task_id : Option ℕ
  pub problem : ℕ
  pub required_behaviour : List ℕ
  pub acceptance_fixture_root : ℕ
  pub priority : String
  pub status : CapabilityStatus
  pub fulfilment_evidence : List ℕ
  pub triage_decision_id : Option ℕ
  pub triage_rationale : Option ℕ

pub record ChangeSet : Type 0 where
  pub change_set_id : ℕ
  pub purpose : ℕ
  pub task_ids : List ℕ
  pub integration_contract_root : ℕ
  pub state : ChangeSetState
  pub parent_generation_id : Option ℕ
  pub decision_id : Option ℕ
  pub decision_rationale : Option ℕ

pub record TestResult : Type 0 where
  pub name : ℕ
  pub status : TestStatus
  pub evidence_root : Option ℕ

pub record IntegrationCandidate : Type 0 where
  pub candidate_id : ℕ
  pub project_id : ℕ
  pub parent_generation_id : ℕ
  pub package_roots : List (ℕ × ℕ)
  pub interface_versions : List (ℕ × ℕ)
  pub configuration_root : ℕ
  pub test_results : List TestResult
  pub state : CandidateState

-- An entry of `sourceInventory`.
pub record Source : Type 0 where
  pub reference : ℕ
  pub sha256 : ℕ
  pub access : String

pub record ContextBundle : Type 0 where
  pub context_id : ℕ
  pub task_id : ℕ
  pub included_sources : List Source
  pub content_root : ℕ
  pub output_bundle_id : ℕ

-- The document in `state_json`.
pub data Detail : Type 0 where
  capability_request : CapabilityRequest → Detail
  change_set : ChangeSet → Detail
  integration_candidate : IntegrationCandidate → Detail
  context_bundle : ContextBundle → Detail

-- A row; its column `state` is in the document.
pub record Workflow : Type 0 where
  pub aggregate_type : String
  pub aggregate_id : ℕ
  pub project_id : Option ℕ
  pub task_id : Option ℕ
  pub detail : Detail
  pub aggregate_version : ℕ
  pub aggregate_root : ℕ
  pub created_event_id : Option ℕ

abbrev pub capability_status_text : CapabilityStatus → String
capability_status_text opened = "OPEN"
capability_status_text match_existing = "MATCH_EXISTING"
capability_status_text change_existing = "CHANGE_EXISTING"
capability_status_text adapter_required = "ADAPTER_REQUIRED"
capability_status_text new_package_required = "NEW_PACKAGE_REQUIRED"
capability_status_text fgpm_core_issue = "FGPM_CORE_ISSUE"
capability_status_text hub_issue = "HUB_ISSUE"
capability_status_text deferred = "DEFERRED"
capability_status_text CapabilityStatus.rejected = "REJECTED"
capability_status_text fulfilled = "FULFILLED"
capability_status_text CapabilityStatus.partial = "PARTIAL"
capability_status_text withdrawn = "WITHDRAWN"

abbrev pub change_set_state_text : ChangeSetState → String
change_set_state_text proposed = "PROPOSED"
change_set_state_text tasks_authorised = "TASKS_AUTHORISED"
change_set_state_text tasks_active = "TASKS_ACTIVE"
change_set_state_text candidates_ready = "CANDIDATES_READY"
change_set_state_text integration = "INTEGRATION"
change_set_state_text accepted = "ACCEPTED"
change_set_state_text ChangeSetState.partial = "PARTIAL"
change_set_state_text ChangeSetState.rejected = "REJECTED"
change_set_state_text closed = "CLOSED"

abbrev pub candidate_state_text : CandidateState → String
candidate_state_text validated = "VALIDATED"
candidate_state_text CandidateState.rejected = "REJECTED"

abbrev pub test_status_text : TestStatus → String
test_status_text passed = "PASSED"
test_status_text failed = "FAILED"
test_status_text skipped = "SKIPPED"
