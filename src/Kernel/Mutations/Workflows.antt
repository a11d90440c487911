-- ===== src/Kernel/Mutations/Workflows.antt =====
-- The handler of the workflow aggregates: the operations that create them, and
-- capabilityRequest.triage, capabilityRequest.fulfil, changeSet.addTask, changeSet.startIntegration
-- and changeSet.decide.
use codex_post_office.Base.{
  ℕ, ◌+◌, String, Bool, true, false, not, ◌&&◌, Option, none, some, List, [], ◌∷◌, ◌++◌, Json, null,
  str, distinct, find, update, ◌==◌, if◌then◌else◌, str_eq, same_option, is_some, ok, raised, Code,
}
use codex_post_office.Hub.{
  Hub, Workflow, Detail, CapabilityRequest, CapabilityStatus, ChangeSet, ChangeSetState,
  capability_request, change_set, integration_candidate, context_bundle, opened, fulfilled,
  withdrawn,
}
use codex_post_office.Kernel.Transaction.{
  Tx, pure, raise, require, reading, row, modify, ◌>>=◌, ◌>>◌,
}
use codex_post_office.Kernel.Documents.{sorted}
use codex_post_office.Kernel.Documents.Workflow.{workflow_state, state_text}
use codex_post_office.Kernel.Events.Query.{aggregate_root, aggregate_position, Request}
use codex_post_office.Kernel.Authority.Call.{Call}
use codex_post_office.Kernel.Authority.Basis.{prepare_mutation_authority}
use codex_post_office.Kernel.Authority.Finalize.{Response, finalize_mutation}
use codex_post_office.Kernel.Mutations.Common.{
  task_of, facts, singleton, no_link, require_aggregate, require_id,
}
use codex_post_office.Kernel.Mutations.WorkflowDrafts.{
  WorkflowCreation, Draft, creation_type, creation_draft,
}

-- The parameter `decision` of changeSet.decide.
pub data SetDecision : Type 0 where
  accept settle_in_part reject abandon : SetDecision

-- An operation that changes its aggregate, with its parameters.
pub data WorkflowChange : Type 0 where
  triage : CapabilityStatus → ℕ → WorkflowChange
  fulfil : CapabilityStatus → List ℕ → WorkflowChange
  add_task : ℕ → WorkflowChange
  start_integration : ℕ → WorkflowChange
  decide : SetDecision → ℕ → WorkflowChange

-- The operation with its parameters.
pub data WorkflowOperation : Type 0 where
  creation : WorkflowCreation → WorkflowOperation
  alteration : WorkflowChange → WorkflowOperation

abbrev pub change_type : WorkflowChange → String
change_type (triage _ _) = "CapabilityRequest"
change_type (fulfil _ _) = "CapabilityRequest"
change_type (add_task _) = "ChangeSet"
change_type (start_integration _) = "ChangeSet"
change_type (decide _ _) = "ChangeSet"

-- `workflow_types`
abbrev pub operation_type : WorkflowOperation → String
operation_type (creation op) = creation_type op
operation_type (alteration op) = change_type op

abbrev is_workflow : String → ℕ → Workflow → Bool
is_workflow kind id w = str_eq w.aggregate_type kind && w.aggregate_id == id

abbrev workflow_of : Hub → String → ℕ → Option Workflow
workflow_of h kind id = find (is_workflow kind id) h.workflows

abbrev is_open_request : CapabilityStatus → Bool
is_open_request opened = true
is_open_request _ = false

abbrev is_terminal_request : CapabilityStatus → Bool
is_terminal_request fulfilled = true
is_terminal_request withdrawn = true
is_terminal_request _ = false

abbrev takes_tasks : ChangeSetState → Bool
takes_tasks ChangeSetState.proposed = true
takes_tasks ChangeSetState.tasks_authorised = true
takes_tasks _ = false

abbrev ready_for_integration : ChangeSetState → Bool
ready_for_integration ChangeSetState.tasks_active = true
ready_for_integration ChangeSetState.candidates_ready = true
ready_for_integration s = takes_tasks s

abbrev is_integrating : ChangeSetState → Bool
is_integrating ChangeSetState.integration = true
is_integrating _ = false

abbrev decided_state : SetDecision → ChangeSetState
decided_state accept = ChangeSetState.accepted
decided_state settle_in_part = ChangeSetState.partial
decided_state reject = ChangeSetState.rejected
decided_state abandon = ChangeSetState.closed

-- `request["authority"].get("exactAuthorActionId") or request["authority"].get("authorityGrantId")`
abbrev decision_of : Request → Option ℕ
decision_of r =
    if is_some r.exact_author_action_id then r.exact_author_action_id else r.authority_grant_id

-- The document of a changed row, with the task that the operation adds to the facts of the scope.
-- A document of another type lacks the keys, and Python raises.
unfoldable pub changed_request :
    Call → Workflow → CapabilityRequest → WorkflowChange → Tx (Detail × List ℕ)
changed_request c w r (triage outcome rationale) = do
  require (λ _. is_open_request r.status) (raised Code.concurrency_conflict)
  pure (
    capability_request (record r {
      status = outcome;
      triage_decision_id = decision_of c.request;
      triage_rationale = some rationale;
    }),
    singleton w.task_id,
  )
changed_request c w r (fulfil outcome evidence_roots) = do
  require (λ _. not (is_terminal_request r.status)) (raised Code.concurrency_conflict)
  pure (
    capability_request (record r { status = outcome; fulfilment_evidence = evidence_roots }),
    singleton w.task_id,
  )
changed_request c w r _ = raise (raised Code.internal_error)

unfoldable pub changed_set : Call → Workflow → ChangeSet → WorkflowChange → Tx (Detail × List ℕ)
changed_set c w s (add_task id) = do
  require (λ _. takes_tasks s.state) (raised Code.concurrency_conflict)
  t ← row (λ h. task_of h id) (raised Code.input_invalid)
  require (λ _. same_option w.project_id (some t.project_id)) (raised Code.input_invalid)
  pure (
    change_set (record s {
      task_ids = sorted (distinct (s.task_ids ++ t.task_id ∷ []));
      state = ChangeSetState.tasks_authorised;
    }),
    t.task_id ∷ [],
  )
changed_set c w s (start_integration generation) = do
  require (λ _. ready_for_integration s.state) (raised Code.concurrency_conflict)
  pure (
    change_set
        (record s { state = ChangeSetState.integration; parent_generation_id = some generation }),
    singleton w.task_id,
  )
changed_set c w s (decide decision rationale) = do
  require (λ _. is_integrating s.state) (raised Code.concurrency_conflict)
  pure (
    change_set (record s {
      state = decided_state decision;
      decision_id = decision_of c.request;
      decision_rationale = some rationale;
    }),
    singleton w.task_id,
  )
changed_set c w s _ = raise (raised Code.internal_error)

unfoldable pub changed_detail : Call → Workflow → Detail → WorkflowChange → Tx (Detail × List ℕ)
unfolding changed_request changed_set
changed_detail c w (capability_request r) op = changed_request c w r op
changed_detail c w (change_set s) op = changed_set c w s op
changed_detail c w (integration_candidate x) op = raise (raised Code.internal_error)
changed_detail c w (context_bundle x) op = raise (raised Code.internal_error)

abbrev set_workflow : String → ℕ → (Workflow → Workflow) → Hub → Hub
set_workflow kind id change h = record h {
  workflows = update (is_workflow kind id) change h.workflows;
}

abbrev new_workflow : String → ℕ → Draft → ℕ → Workflow
new_workflow kind id d root = record {
  aggregate_type = kind;
  aggregate_id = id;
  project_id = d.project_id;
  task_id = d.task_id;
  detail = d.detail;
  aggregate_version = 1;
  aggregate_root = root;
  created_event_id = none;
}

abbrev optional_workflow : Option Workflow → Json
optional_workflow none = null
optional_workflow (some w) = workflow_state w.detail

module _ (sha256_json : Json → ℕ) (names_secret : ℕ → Bool) (context_bundle_id : ℕ → ℕ) where
  -- What follows the gate, on the row that was read.
  unfoldable pub workflow_operation :
      Call → String → ℕ → ℕ → ℕ → Option Workflow → WorkflowOperation → Tx Response
  workflow_operation c kind id before_root version found (creation op) = do
    require (λ _. not (is_some found)) (raised Code.concurrency_conflict)
    d ← creation_draft sha256_json names_secret context_bundle_id c id op
    basis ← prepare_mutation_authority c d.scope_facts
    let after_root = aggregate_root sha256_json kind id (workflow_state d.detail)
    modify λ h. record h { workflows = h.workflows ++ new_workflow kind id d after_root ∷ [] }
    finalize_mutation sha256_json c basis (record {
      before_root = before_root;
      after_root = after_root;
      aggregate_version = 1;
      created_ids = id ∷ [];
      event_result = ("state", str (state_text d.detail)) ∷ [];
      link = λ event. set_workflow kind id (λ w. record w { created_event_id = some event });
    })
  workflow_operation c kind id before_root version found (alteration op) = do
    w ← row (λ _. found) (raised Code.input_invalid)
    changed ← changed_detail c w w.detail op
    let (detail, tasks) = changed
    basis ← prepare_mutation_authority c (facts (singleton w.project_id) tasks [] [])
    let after_root = aggregate_root sha256_json kind id (workflow_state detail)
    modify (
        set_workflow kind id (λ o. record o {
          detail = detail;
          aggregate_version = version + 1;
          aggregate_root = after_root;
        }))
    finalize_mutation sha256_json c basis (record {
      before_root = before_root;
      after_root = after_root;
      aggregate_version = version + 1;
      created_ids = [];
      event_result = ("state", str (state_text detail)) ∷ [];
      link = no_link;
    })

  -- The handler of the nine operations.
  unfoldable pub workflow_mutation : Call → ℕ → WorkflowOperation → Tx Response
  workflow_mutation c id op = do
    let kind = operation_type op
    require_id c.request id
    found ← reading (λ h. ok (workflow_of h kind id))
    let before_root = aggregate_root sha256_json kind id (optional_workflow found)
    version ← aggregate_position kind id before_root
    require_aggregate c.request kind id version before_root
    workflow_operation c kind id before_root version found op
