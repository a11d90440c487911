-- ===== src/Kernel/Documents/Catalogue.antt =====
-- The state documents of packages, interfaces, cycles and reconciliations: `_package_state`,
-- `_interface_state`, `_interface_family_state`, `_cycle_state`, `_shadow_observation_state` and
-- `_reconciliation_plan_state`.
use codex_post_office.Base.{
  ℕ, Bool, true, false, ◌&&◌, List, [], ◌∷◌, ◌++◌, map, Json, num, str, arr, obj, opt, nums, select,
  order_by, ◌==◌, same_option, some, if◌then◌else◌, str_eq,
}
use codex_post_office.Hub.{
  Hub, SoftwarePackage, PackageVersion, PackageInterface, Direction, provides, requires, Interface,
  Participant, Relation, provider, consumer, Cycle, CycleNote, Observation, PlannedAction,
  ReconciliationPlan, Task, package_status_text, version_state_text, interface_status_text,
  cycle_state_text, verdict_text, observation_state_text, reconciliation_state_text,
}
use codex_post_office.Kernel.Documents.{optional_field, sorted}

abbrev same_direction : Direction → Direction → Bool
same_direction provides provides = true
same_direction requires requires = true
same_direction _ _ = false

abbrev same_relation : Relation → Relation → Bool
same_relation provider provider = true
same_relation consumer consumer = true
same_relation _ _ = false

version_document : PackageVersion → Json
version_document v = obj (
    ("version", num v.version)
    ∷ ("contentRoot", num v.content_root)
    ∷ ("state", str (version_state_text v.state))
    ∷ [])

abbrev versions_of : Hub → ℕ → List PackageVersion
versions_of h id =
    order_by (λ v. v.version)
      (select (λ (v : PackageVersion). v.package_id == id) h.package_versions)

-- the interfaces of a package in one direction, in order
abbrev interfaces_of : Hub → ℕ → Direction → List ℕ
interfaces_of h id d = sorted (
    map (λ (i : PackageInterface). i.interface_id)
      (select (λ i. i.package_id == id && same_direction i.direction d) h.package_interfaces))

abbrev tasks_of : Hub → ℕ → List ℕ
tasks_of h id = sorted (
    map (λ (t : Task). t.task_id)
      (select (λ t. same_option t.mutable_package_id (some id)) h.tasks))

pub package_state : Hub → SoftwarePackage → Json
package_state h p = obj (
    (("id", num p.package_id)
      ∷ ("displayName", num p.display_name)
      ∷ ("owningProjectId", num p.owning_project_id)
      ∷ ("status", str (package_status_text p.status))
      ∷ ("versions", arr (map version_document (versions_of h p.package_id)))
      ∷ ("providedInterfaceIds", arr (nums (interfaces_of h p.package_id provides)))
      ∷ ("requiredInterfaceIds", arr (nums (interfaces_of h p.package_id requires)))
      ∷ ("taskIds", arr (nums (tasks_of h p.package_id)))
      ∷ [])
    ++ optional_field "sourceLocation" p.source_location
    ++ optional_field "licence" p.licence)

-- the packages that take part in an interface version in one way, in order
abbrev participants_of : Hub → ℕ → ℕ → Relation → List ℕ
participants_of h id version r = sorted (
    map (λ (p : Participant). p.package_id)
      (select (λ p. p.interface_id == id && p.version == version && same_relation p.relation r)
        h.participants))

pub interface_state : Hub → Interface → Json
interface_state h i = obj (
    (("id", num i.interface_id)
      ∷ ("version", num i.version)
      ∷ ("stewardId", num i.steward_package_id)
      ∷ ("status", str (interface_status_text i.status))
      ∷ ("humanGuide", num i.human_guide)
      ∷ ("providerIds", arr (nums (participants_of h i.interface_id i.version provider)))
      ∷ ("consumerIds", arr (nums (participants_of h i.interface_id i.version consumer)))
      ∷ [])
    ++ optional_field "schemaRoot" i.schema_root
    ++ optional_field "fixtureRoot" i.fixture_root
    ++ optional_field "replacementInterfaceId" i.replacement_interface_id)

-- the rows of an interface, by version
abbrev pub versions_of_interface : Hub → ℕ → List Interface
versions_of_interface h id =
    order_by (λ i. i.version) (select (λ (i : Interface). i.interface_id == id) h.interfaces)

pub interface_family_state : Hub → ℕ → Json
interface_family_state h id = obj (
    ("interfaceId", num id)
    ∷ ("versions", arr (map (interface_state h) (versions_of_interface h id)))
    ∷ [])

abbrev notes_of : Hub → ℕ → List ℕ
notes_of h id = sorted (
    map (λ (n : CycleNote). n.note)
      (select (λ n. n.cycle_id == id && str_eq n.note_kind "NON_CLAIM") h.cycle_notes))

pub cycle_state : Hub → Cycle → Json
cycle_state h c = obj (
    (("id", num c.cycle_id)
      ∷ ("projectId", num c.project_id)
      ∷ ("scope", num c.scope_text)
      ∷ ("openingAuthorityId", num c.opening_author_action_id)
      ∷ ("state", str (cycle_state_text c.state))
      ∷ ("nonClaims", arr (nums (notes_of h c.cycle_id)))
      ∷ [])
    ++ optional_field "acceptanceDecisionId" c.acceptance_author_action_id
    ++ optional_field "closureAuthorityId" c.closure_author_action_id)

pub shadow_observation_state : Observation → Json
shadow_observation_state o = obj (
    ("observationId", num o.observation_id)
    ∷ ("sourceKind", str o.source_kind)
    ∷ ("sourceReference", num o.source_reference)
    ∷ ("expectedRoot", opt o.expected_root)
    ∷ ("observedRoot", opt o.observed_root)
    ∷ ("classification", str (verdict_text o.verdict))
    ∷ ("evidenceRoot", num o.evidence_root)
    ∷ ("state", str (observation_state_text o.state))
    ∷ [])

pub planned_action_document : PlannedAction → Json
planned_action_document a = obj (
    ("observationId", num a.observation_id)
    ∷ ("action", str (if a.is_automatic then "AUTO_RESOLVE" else "REVIEW_REQUIRED"))
    ∷ ("classification", str (verdict_text a.verdict))
    ∷ [])

pub reconciliation_plan_state : ReconciliationPlan → Json
reconciliation_plan_state p = obj (
    ("planId", num p.plan_id)
    ∷ ("snapshotRoot", num p.snapshot_root)
    ∷ ("assertionSetRoot", num p.assertion_set_root)
    ∷ ("observationSetRoot", num p.observation_set_root)
    ∷ ("actions", arr (map planned_action_document p.planned_actions))
    ∷ ("planRoot", num p.plan_root)
    ∷ ("state", str (reconciliation_state_text p.state))
    ∷ [])
