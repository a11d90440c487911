-- ===== src/Hub/Catalogue.antt =====
-- The tables of software packages, their interfaces, the semantic cycles, and the reconciliation of
-- shadow observations, with the vocabularies of their status columns.
use codex_post_office.Base.{ℕ, String, Bool, true, false, List, Option}

pub data PackageStatus : Type 0 where
  proposed in_development candidate accepted deprecated retired : PackageStatus

-- Of a row of `package_versions`.
pub data VersionState : Type 0 where
  candidate accepted deprecated retired : VersionState

pub data Direction : Type 0 where
  provides requires : Direction

pub data InterfaceStatus : Type 0 where
  experimental provisional supported deprecated retired : InterfaceStatus

pub data Relation : Type 0 where
  provider consumer : Relation

pub data CycleState : Type 0 where
  opened active awaiting_review accepted closed : CycleState

-- Of a shadow observation.
pub data Verdict : Type 0 where
  matched mismatch missing ambiguous : Verdict

pub data ObservationState : Type 0 where
  pending resolved accepted_exception : ObservationState

pub data ReconciliationState : Type 0 where
  previewed applied superseded : ReconciliationState

pub record SoftwarePackage : Type 0 where
  pub package_id : ℕ
  pub display_name : ℕ
  pub owning_project_id : ℕ
  pub status : PackageStatus
  pub source_location : Option ℕ
  pub licence : Option ℕ
  pub aggregate_version : ℕ
  pub aggregate_root : ℕ
  pub created_event_id : Option ℕ

-- A row of `package_versions`.
pub record PackageVersion : Type 0 where
  pub package_id : ℕ
  pub version : ℕ
  pub content_root : ℕ
  pub state : VersionState

-- A row of `package_interfaces`.
pub record PackageInterface : Type 0 where
  pub package_id : ℕ
  pub interface_id : ℕ
  pub direction : Direction

-- A row of `interfaces`.
pub record Interface : Type 0 where
  pub interface_id : ℕ
  pub version : ℕ
  pub steward_package_id : ℕ
  pub status : InterfaceStatus
  pub schema_root : Option ℕ
  pub fixture_root : Option ℕ
  pub human_guide : ℕ
  pub replacement_interface_id : Option ℕ

-- A row of `interface_participants`.
pub record Participant : Type 0 where
  pub interface_id : ℕ
  pub version : ℕ
  pub package_id : ℕ
  pub relation : Relation

-- A row of `semantic_cycles`.
pub record Cycle : Type 0 where
  pub cycle_id : ℕ
  pub project_id : ℕ
  pub scope_text : ℕ
  pub opening_author_action_id : ℕ
  pub state : CycleState
  pub acceptance_author_action_id : Option ℕ
  pub closure_author_action_id : Option ℕ
  pub aggregate_version : ℕ
  pub aggregate_root : ℕ

-- A row of `cycle_notes`.
pub record CycleNote : Type 0 where
  pub cycle_id : ℕ
  pub note_kind : String
  pub note : ℕ
  pub event_id : ℕ

-- A row of `shadow_observations`; `pending` is its state OPEN.
pub record Observation : Type 0 where
  pub observation_id : ℕ
  pub source_kind : String
  pub source_reference : ℕ
  pub expected_root : Option ℕ
  pub observed_root : Option ℕ
  pub verdict : Verdict
  pub evidence_root : ℕ
  pub state : ObservationState
  pub resolved_at : Option ℕ

-- An entry of `actions_json` of a reconciliation plan: AUTO_RESOLVE, or REVIEW_REQUIRED.
pub record PlannedAction : Type 0 where
  pub observation_id : ℕ
  pub is_automatic : Bool
  pub verdict : Verdict

-- A row of `reconciliation_plans`.
pub record ReconciliationPlan : Type 0 where
  pub plan_id : ℕ
  pub snapshot_root : ℕ
  pub assertion_set_root : ℕ
  pub observation_set_root : ℕ
  pub planned_actions : List PlannedAction
  pub plan_root : ℕ
  pub state : ReconciliationState
  pub aggregate_version : ℕ
  pub aggregate_root : ℕ
  pub applied_at : Option ℕ
  pub applied_event_id : Option ℕ

abbrev pub package_status_text : PackageStatus → String
package_status_text PackageStatus.proposed = "PROPOSED"
package_status_text PackageStatus.in_development = "IN_DEVELOPMENT"
package_status_text PackageStatus.candidate = "CANDIDATE"
package_status_text PackageStatus.accepted = "ACCEPTED"
package_status_text PackageStatus.deprecated = "DEPRECATED"
package_status_text PackageStatus.retired = "RETIRED"

abbrev pub version_state_text : VersionState → String
version_state_text VersionState.candidate = "CANDIDATE"
version_state_text VersionState.accepted = "ACCEPTED"
version_state_text VersionState.deprecated = "DEPRECATED"
version_state_text VersionState.retired = "RETIRED"

abbrev pub interface_status_text : InterfaceStatus → String
interface_status_text InterfaceStatus.experimental = "EXPERIMENTAL"
interface_status_text InterfaceStatus.provisional = "PROVISIONAL"
interface_status_text InterfaceStatus.supported = "SUPPORTED"
interface_status_text InterfaceStatus.deprecated = "DEPRECATED"
interface_status_text InterfaceStatus.retired = "RETIRED"

abbrev pub cycle_state_text : CycleState → String
cycle_state_text CycleState.opened = "OPEN"
cycle_state_text CycleState.active = "ACTIVE"
cycle_state_text CycleState.awaiting_review = "AWAITING_REVIEW"
cycle_state_text CycleState.accepted = "ACCEPTED"
cycle_state_text CycleState.closed = "CLOSED"

abbrev pub verdict_text : Verdict → String
verdict_text matched = "MATCH"
verdict_text mismatch = "MISMATCH"
verdict_text missing = "ABSENT"
verdict_text ambiguous = "AMBIGUOUS"

abbrev pub observation_state_text : ObservationState → String
observation_state_text ObservationState.pending = "OPEN"
observation_state_text ObservationState.resolved = "RESOLVED"
observation_state_text ObservationState.accepted_exception = "ACCEPTED_EXCEPTION"

abbrev pub reconciliation_state_text : ReconciliationState → String
reconciliation_state_text previewed = "PREVIEWED"
reconciliation_state_text applied = "APPLIED"
reconciliation_state_text ReconciliationState.superseded = "SUPERSEDED"

-- `status in {"DEPRECATED", "RETIRED"}`
abbrev pub is_inactive_package : PackageStatus → Bool
is_inactive_package PackageStatus.deprecated = true
is_inactive_package PackageStatus.retired = true
is_inactive_package _ = false

abbrev pub is_inactive_interface : InterfaceStatus → Bool
is_inactive_interface InterfaceStatus.deprecated = true
is_inactive_interface InterfaceStatus.retired = true
is_inactive_interface _ = false
