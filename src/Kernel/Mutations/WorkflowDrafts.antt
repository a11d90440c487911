-- ===== src/Kernel/Mutations/WorkflowDrafts.antt =====
-- The checks of capabilityRequest.create, changeSet.create, integration.record and
-- contextBundle.build, and the documents that they make.
use codex_post_office.Base.{
  ℕ, String, Bool, true, false, not, ◌&&◌, Option, none, some, List, [], ◌∷◌, Json, all, any,
  all_distinct, ◌==◌, if◌then◌else◌, raised, Code,
}
use codex_post_office.Hub.{
  Hub, Scope, Task, StorageCopy, Detail, ChangeSetState, CandidateState, Source, TestResult,
  capability_request, change_set, integration_candidate, context_bundle, opened, failed,
  is_active_project,
}
use codex_post_office.Kernel.Transaction.{Tx, pure, require, row, ◌>>=◌, ◌>>◌}
use codex_post_office.Kernel.Documents.{sorted}
use codex_post_office.Kernel.Documents.Workflow.{inventory_document}
use codex_post_office.Kernel.Authority.Call.{Call}
use codex_post_office.Kernel.Mutations.Common.{project_of, task_of, package_of, facts, singleton}

-- The parameter `request` of capabilityRequest.create.
pub record CapabilityDraft : Type 0 where
  pub request_id : ℕ
  pub requesting_project_id : ℕ
  pub requesting_task_id : Option ℕ
  pub problem : ℕ
  pub required_behaviour : List ℕ
  pub acceptance_fixture_root : ℕ
  pub priority : String

-- The parameter `candidate` of integration.record, but for its identifier.
pub record CandidateDraft : Type 0 where
  pub project_id : ℕ
  pub parent_generation_id : ℕ
  pub package_roots : List (ℕ × ℕ)
  pub interface_versions : List (ℕ × ℕ)
  pub configuration_root : ℕ
  pub test_results : List TestResult

-- An operation that creates its aggregate, with its parameters.
pub data WorkflowCreation : Type 0 where
  request_capability : CapabilityDraft → WorkflowCreation
  create_change_set : ℕ → List ℕ → ℕ → WorkflowCreation
  record_integration : CandidateDraft → WorkflowCreation
  build_context : ℕ → List Source → WorkflowCreation

-- `workflow_types`
abbrev pub creation_type : WorkflowCreation → String
creation_type (request_capability _) = "CapabilityRequest"
creation_type (create_change_set _ _ _) = "ChangeSet"
creation_type (record_integration _) = "IntegrationCandidate"
creation_type (build_context _ _) = "ContextBundle"

abbrev is_failed_test : TestResult → Bool
is_failed_test t = elim t.status [ failed ↦ true | _ ↦ false ]

-- What the checks of an operation leave: the new document with the columns of its row, and the facts
-- of the scope.
pub record Draft : Type 0 where
  pub detail : Detail
  pub project_id : Option ℕ
  pub task_id : Option ℕ
  pub scope_facts : Scope

-- the task of a capability request, if it names one, is the project's
abbrev task_in_project : ℕ → Option ℕ → Hub → Bool
task_in_project project none h = true
task_in_project project (some id) h =
    any (λ (t : Task). t.task_id == id && t.project_id == project) h.tasks

abbrev is_task_of : ℕ → ℕ → Task → Bool
is_task_of project id t = t.task_id == id && t.project_id == project

-- every task exists in the project of the first
abbrev tasks_in_project : ℕ → List ℕ → Hub → Bool
tasks_in_project project ids h = all (λ id. any (is_task_of project id) h.tasks) ids

abbrev first_task : Hub → List ℕ → Option Task
first_task h [] = none
first_task h (id ∷ _) = task_of h id

-- The loop over `packageRoots`: the package is the project's, and its root is in local custody.
unfoldable pub packages_integrable : ℕ → List (ℕ × ℕ) → Tx (Unit {0})
packages_integrable project [] = pure tt
packages_integrable project ((id, root) ∷ rest) = do
  p ← row (λ h. package_of h id) (raised Code.input_invalid)
  require (λ _. p.owning_project_id == project) (raised Code.input_invalid)
  require (λ h. any (λ (s : StorageCopy). s.content_sha256 == root) h.copies)
      (raised Code.custody_not_verified)
  packages_integrable project rest

abbrev keys : List (ℕ × ℕ) → List ℕ
keys [] = []
keys ((k, v) ∷ rest) = k ∷ keys rest

module _ (sha256_json : Json → ℕ) (names_secret : ℕ → Bool) (context_bundle_id : ℕ → ℕ) where
  -- The checks and the document of an operation that creates.
  unfoldable pub creation_draft : Call → ℕ → WorkflowCreation → Tx Draft
  creation_draft c id (request_capability r) = do
    require (λ _. r.request_id == id) (raised Code.concurrency_conflict)
    p ← row (λ h. project_of h r.requesting_project_id) (raised Code.input_invalid)
    require (λ _. is_active_project p.status) (raised Code.input_invalid)
    require (task_in_project p.project_id r.requesting_task_id) (raised Code.input_invalid)
    pure (record {
      detail = capability_request (record {
        request_id = r.request_id;
        requesting_project_id = r.requesting_project_id;
        requesting_task_id = r.requesting_task_id;
        problem = r.problem;
        required_behaviour = r.required_behaviour;
        acceptance_fixture_root = r.acceptance_fixture_root;
        priority = r.priority;
        status = opened;
        fulfilment_evidence = [];
        triage_decision_id = none;
        triage_rationale = none;
      });
      project_id = some p.project_id;
      task_id = r.requesting_task_id;
      scope_facts = facts (p.project_id ∷ []) (singleton r.requesting_task_id) [] [];
    })
  creation_draft c id (create_change_set purpose task_ids contract_root) = do
    require (λ _. all_distinct task_ids) (raised Code.input_invalid)
    t ← row (λ h. first_task h task_ids) (raised Code.input_invalid)
    require (tasks_in_project t.project_id task_ids) (raised Code.input_invalid)
    pure (record {
      detail = change_set (record {
        change_set_id = id;
        purpose = purpose;
        task_ids = sorted task_ids;
        integration_contract_root = contract_root;
        state = ChangeSetState.proposed;
        parent_generation_id = none;
        decision_id = none;
        decision_rationale = none;
      });
      project_id = some t.project_id;
      task_id = none;
      scope_facts = facts (t.project_id ∷ []) task_ids [] [];
    })
  creation_draft c id (record_integration d) = do
    p ← row (λ h. project_of h d.project_id) (raised Code.input_invalid)
    require (λ _. is_active_project p.status) (raised Code.input_invalid)
    packages_integrable p.project_id d.package_roots
    pure (record {
      detail = integration_candidate (record {
        candidate_id = id;
        project_id = d.project_id;
        parent_generation_id = d.parent_generation_id;
        package_roots = d.package_roots;
        interface_versions = d.interface_versions;
        configuration_root = d.configuration_root;
        test_results = d.test_results;
        state =
            if any is_failed_test d.test_results
            then CandidateState.rejected
            else CandidateState.validated;
      });
      project_id = some p.project_id;
      task_id = none;
      scope_facts = facts (p.project_id ∷ []) [] (keys d.package_roots) [];
    })
  creation_draft c id (build_context task_id inventory) = do
    t ← row (λ h. task_of h task_id) (raised Code.input_invalid)
    require (λ _. not (any (λ (s : Source). names_secret s.reference) inventory))
        (raised Code.authorization_denied)
    let content_root = sha256_json (inventory_document inventory)
    pure (record {
      detail = context_bundle (record {
        context_id = id;
        task_id = t.task_id;
        included_sources = inventory;
        content_root = content_root;
        output_bundle_id = context_bundle_id content_root;
      });
      project_id = some t.project_id;
      task_id = some t.task_id;
      scope_facts = facts (t.project_id ∷ []) (t.task_id ∷ []) [] [];
    })
