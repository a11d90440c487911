-- ===== src/Kernel/Documents/Workflow.antt =====
-- `_workflow_state`: the documents of the workflow aggregates, as the handlers build them.
use codex_post_office.Base.{ℕ, String, List, [], ◌∷◌, ◌++◌, map, Json, num, str, arr, obj, nums}
use codex_post_office.Hub.{
  CapabilityRequest, ChangeSet, IntegrationCandidate, ContextBundle, TestResult, Source, Detail,
  capability_request, change_set, integration_candidate, context_bundle, capability_status_text,
  change_set_state_text, candidate_state_text, test_status_text,
}
use codex_post_office.Kernel.Documents.{optional_field}

evidence_document : ℕ → Json
evidence_document root = obj (("kind", str "ROOT") ∷ ("reference", num root) ∷ [])

capability_document : CapabilityRequest → Json
capability_document r = obj (
    (("schemaVersion", str "1")
      ∷ ("id", num r.request_id)
      ∷ ("requestingProjectId", num r.requesting_project_id)
      ∷ ("problem", num r.problem)
      ∷ ("requiredBehaviour", arr (nums r.required_behaviour))
      ∷ ("acceptanceFixtureRoot", num r.acceptance_fixture_root)
      ∷ ("priority", str r.priority)
      ∷ ("status", str (capability_status_text r.status))
      ∷ ("linkedTaskIds", arr [])
      ∷ ("fulfilmentEvidence", arr (map evidence_document r.fulfilment_evidence))
      ∷ [])
    ++ optional_field "requestingTaskId" r.requesting_task_id
    ++ optional_field "triageDecisionId" r.triage_decision_id
    ++ optional_field "triageRationale" r.triage_rationale)

change_set_document : ChangeSet → Json
change_set_document s = obj (
    (("schemaVersion", str "1")
      ∷ ("id", num s.change_set_id)
      ∷ ("purpose", num s.purpose)
      ∷ ("taskIds", arr (nums s.task_ids))
      ∷ ("integrationContractRoot", num s.integration_contract_root)
      ∷ ("dependencyEdges", arr [])
      ∷ ("state", str (change_set_state_text s.state))
      ∷ [])
    ++ optional_field "parentGenerationId" s.parent_generation_id
    ++ optional_field "decisionId" s.decision_id
    ++ optional_field "decisionRationale" s.decision_rationale)

test_document : TestResult → Json
test_document t = obj (
    (("name", num t.name) ∷ ("status", str (test_status_text t.status)) ∷ [])
    ++ optional_field "evidenceRoot" t.evidence_root)

pair_document : ℕ × ℕ → Json
pair_document (key, value) = arr (num key ∷ num value ∷ [])

candidate_document : IntegrationCandidate → Json
candidate_document c = obj (
    ("schemaVersion", str "1")
    ∷ ("id", num c.candidate_id)
    ∷ ("projectId", num c.project_id)
    ∷ ("parentGenerationId", num c.parent_generation_id)
    ∷ ("packageRoots", arr (map pair_document c.package_roots))
    ∷ ("interfaceVersions", arr (map pair_document c.interface_versions))
    ∷ ("configurationRoot", num c.configuration_root)
    ∷ ("testResults", arr (map test_document c.test_results))
    ∷ ("state", str (candidate_state_text c.state))
    ∷ [])

source_document : Source → Json
source_document s =
    obj (("reference", num s.reference) ∷ ("sha256", num s.sha256) ∷ ("access", str s.access) ∷ [])

pub inventory_document : List Source → Json
inventory_document ss = arr (map source_document ss)

context_document : ContextBundle → Json
context_document b = obj (
    ("schemaVersion", str "1")
    ∷ ("id", num b.context_id)
    ∷ ("taskId", num b.task_id)
    ∷ ("includedSources", inventory_document b.included_sources)
    ∷ ("excludedSources", arr (str "caller-secrets" ∷ []))
    ∷ ("contentRoot", num b.content_root)
    ∷ ("outputBundleId", num b.output_bundle_id)
    ∷ ("state", str "BUILT")
    ∷ [])

pub workflow_state : Detail → Json
workflow_state (capability_request r) = capability_document r
workflow_state (change_set s) = change_set_document s
workflow_state (integration_candidate c) = candidate_document c
workflow_state (context_bundle b) = context_document b

-- `detail.get("state", detail.get("status"))`
abbrev pub state_text : Detail → String
state_text (capability_request r) = capability_status_text r.status
state_text (change_set s) = change_set_state_text s.state
state_text (integration_candidate c) = candidate_state_text c.state
state_text (context_bundle b) = "BUILT"
