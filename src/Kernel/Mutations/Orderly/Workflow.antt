-- ===== src/Kernel/Mutations/Orderly/Workflow.antt =====
-- The handler of the workflow aggregates is orderly.
use codex_post_office.Base.{ℕ, refl, String, Bool, Option, List, [], ◌∷◌, Json}
use codex_post_office.Hub.{
  Workflow, Detail, CapabilityRequest, ChangeSet, capability_request, change_set,
  integration_candidate, context_bundle,
}
use codex_post_office.Kernel.Authority.Call.{Call}
use codex_post_office.Kernel.Grows.{Quiet-modify}
use codex_post_office.Kernel.Mutations.Judgements.{
  Orderly, OrderlyAt, Orderly-Still, OrderlyAt-Still, Orderly-gate, OrderlyAt-prepare,
  Settles-Quiet, SettlesAt-Quiet, SettlesAt-Settles, IsStill, IsStill-reading, IsStill-pure,
  IsStill-bind, IsStill-raise, finalize_mutation-Settles, finalize_mutation-SettlesAt,
}
use codex_post_office.Kernel.Mutations.WorkflowDrafts
use codex_post_office.Kernel.Mutations.WorkflowDrafts.{
  WorkflowCreation, packages_integrable, creation_draft,
}
use codex_post_office.Kernel.Mutations.Workflows
use codex_post_office.Kernel.Mutations.Workflows.{
  WorkflowChange, WorkflowOperation, changed_request, changed_set, changed_detail,
  workflow_operation, workflow_mutation,
}

packages_integrable-IsStill :
    (project : ℕ) (rows : List (ℕ × ℕ)) → IsStill (packages_integrable project rows)
unfolding packages_integrable
packages_integrable-IsStill project [] = IsStill-pure _
packages_integrable-IsStill project ((id, root) ∷ rows) = IsStill-bind _ _ (IsStill-reading _) λ _.
    IsStill-bind _ _ (IsStill-reading _)
      λ _. IsStill-bind _ _ (IsStill-reading _) λ _. packages_integrable-IsStill project rows

changed_request-IsStill :
    (c : Call) (w : Workflow) (r : CapabilityRequest) (op : WorkflowChange)
    → IsStill (changed_request c w r op)
unfolding changed_request
changed_request-IsStill c w r (Workflows.triage o reason) =
    IsStill-bind _ _ (IsStill-reading _) λ _. IsStill-pure _
changed_request-IsStill c w r (Workflows.fulfil o es) =
    IsStill-bind _ _ (IsStill-reading _) λ _. IsStill-pure _
changed_request-IsStill c w r (Workflows.add_task t) = IsStill-raise _
changed_request-IsStill c w r (Workflows.start_integration g) = IsStill-raise _
changed_request-IsStill c w r (Workflows.decide d reason) = IsStill-raise _

changed_set-IsStill :
    (c : Call) (w : Workflow) (s : ChangeSet) (op : WorkflowChange) → IsStill (changed_set c w s op)
unfolding changed_set
changed_set-IsStill c w s (Workflows.triage o reason) = IsStill-raise _
changed_set-IsStill c w s (Workflows.fulfil o es) = IsStill-raise _
changed_set-IsStill c w s (Workflows.add_task t) = IsStill-bind _ _ (IsStill-reading _) λ _.
    IsStill-bind _ _ (IsStill-reading _)
      λ _. IsStill-bind _ _ (IsStill-reading _) λ _. IsStill-pure _
changed_set-IsStill c w s (Workflows.start_integration g) =
    IsStill-bind _ _ (IsStill-reading _) λ _. IsStill-pure _
changed_set-IsStill c w s (Workflows.decide d reason) =
    IsStill-bind _ _ (IsStill-reading _) λ _. IsStill-pure _

changed_detail-IsStill :
    (c : Call) (w : Workflow) (d : Detail) (op : WorkflowChange) → IsStill (changed_detail c w d op)
unfolding changed_detail
changed_detail-IsStill c w (capability_request r) op = changed_request-IsStill c w r op
changed_detail-IsStill c w (change_set s) op = changed_set-IsStill c w s op
changed_detail-IsStill c w (integration_candidate x) op = IsStill-raise _
changed_detail-IsStill c w (context_bundle x) op = IsStill-raise _

module _ (sha256_json : Json → ℕ) (names_secret : ℕ → Bool) (context_bundle_id : ℕ → ℕ)
    (c : Call) where
  creation_draft-IsStill :
      (id : ℕ) (op : WorkflowCreation)
      → IsStill (creation_draft sha256_json names_secret context_bundle_id c id op)
  unfolding creation_draft
  creation_draft-IsStill id (WorkflowDrafts.request_capability r) =
      IsStill-bind _ _ (IsStill-reading _) λ _. IsStill-bind _ _ (IsStill-reading _) λ _.
        IsStill-bind _ _ (IsStill-reading _)
          λ _. IsStill-bind _ _ (IsStill-reading _) λ _. IsStill-pure _
  creation_draft-IsStill id (WorkflowDrafts.create_change_set p ts root) =
      IsStill-bind _ _ (IsStill-reading _) λ _.
        IsStill-bind _ _ (IsStill-reading _)
          λ _. IsStill-bind _ _ (IsStill-reading _) λ _. IsStill-pure _
  creation_draft-IsStill id (WorkflowDrafts.record_integration d) =
      IsStill-bind _ _ (IsStill-reading _) λ p. IsStill-bind _ _ (IsStill-reading _) λ _.
        IsStill-bind _ _ (packages_integrable-IsStill p.project_id d.package_roots)
          λ _. IsStill-pure _
  creation_draft-IsStill id (WorkflowDrafts.build_context t ss) =
      IsStill-bind _ _ (IsStill-reading _)
        λ _. IsStill-bind _ _ (IsStill-reading _) λ _. IsStill-pure _

  workflow_operation-OrderlyAt :
      (kind : String) (id root v : ℕ) (found : Option Workflow) (op : WorkflowOperation)
      → OrderlyAt sha256_json c kind id root v
          (workflow_operation sha256_json names_secret context_bundle_id c kind id root v found op)
  unfolding workflow_operation
  workflow_operation-OrderlyAt kind id root v found (Workflows.creation op) =
      OrderlyAt-Still _ _ _ _ _ _ _ _ (IsStill-reading _) λ _.
        OrderlyAt-Still _ _ _ _ _ _ _ _ (creation_draft-IsStill id op) λ d.
          OrderlyAt-prepare _ _ _ _ _ _ _ _ λ basis. SettlesAt-Settles _ _ _ _ _ _ _ _ (
            Settles-Quiet _ _ _ _ _ (Quiet-modify _ (λ h. refl))
              λ _. finalize_mutation-Settles _ _ basis _ (λ e h. (refl, refl)) refl)
  workflow_operation-OrderlyAt kind id root v found (Workflows.alteration op) =
      OrderlyAt-Still _ _ _ _ _ _ _ _ (IsStill-reading _) λ w.
        OrderlyAt-Still _ _ _ _ _ _ _ _ (changed_detail-IsStill c w w.detail op) λ changed.
          OrderlyAt-prepare _ _ _ _ _ _ _ _ λ basis.
            SettlesAt-Quiet _ _ _ _ _ _ _ _ _ (Quiet-modify _ (λ h. refl))
              λ _. finalize_mutation-SettlesAt _ _ basis _ _ _ _ v (λ e h. (refl, refl)) refl refl

  pub workflow_mutation-Orderly :
      (id : ℕ) (op : WorkflowOperation)
      → Orderly sha256_json c (workflow_mutation sha256_json names_secret context_bundle_id c id op)
  unfolding workflow_mutation
  workflow_mutation-Orderly id op = Orderly-Still _ _ _ _ (IsStill-reading _) λ _.
      Orderly-Still _ _ _ _ (IsStill-reading _)
        λ found. Orderly-gate _ _ _ _ _ _ _ λ v. workflow_operation-OrderlyAt _ id _ v found op
