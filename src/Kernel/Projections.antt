-- ===== src/Kernel/Projections.antt =====
-- `_validate_kernel_projections`: the row of every aggregate is the state that its last event left.
-- The queries' ORDER BY are left out: all failures are the same.
use codex_post_office.Base.{
  ℕ, String, Bool, ◌||◌, List, [], ◌∷◌, map, distinct, ◌==◌, Result, ok, raised, Code, check,
  then_with, Json,
}
use codex_post_office.Hub.{
  Hub, Grant, Endpoint, Mailbox, Plan, Project, Task, SoftwarePackage, Workflow, MessagePlan, Cycle,
  Message,
}
use codex_post_office.Kernel.Documents.{
  grant_state, endpoint_state, mailbox_state, plan_state, project_state, task_state, message_state,
}
use codex_post_office.Kernel.Documents.Catalogue.{package_state, cycle_state}
use codex_post_office.Kernel.Documents.Mail.{message_plan_state}
use codex_post_office.Kernel.Documents.Workflow.{workflow_state}
use codex_post_office.Kernel.Events.Query.{aggregate_root, position_of}
use codex_post_office.Kernel.Mutations.Mailboxes.{generations}

-- a loop over the rows of a query
abbrev each : {A : Type 0} → (A → Result (Unit {0})) → List A → Result (Unit {0})
each test [] = ok tt
each test (x ∷ xs) = let rest = each test xs in then_with (test x) λ _. rest

abbrev invalid_unless : Bool → Result (Unit {0})
invalid_unless b = check b (raised Code.database_invalid)

module _ (sha256_json : Json → ℕ) (h : Hub) where
  -- `_aggregate_position` at the root of the state
  abbrev positioned : String → ℕ → Json → Result (Unit {0})
  positioned kind id state =
      then_with (position_of kind id (aggregate_root sha256_json kind id state) h.events) λ _. ok tt

  -- The column `aggregate_root` holds the root, too.
  abbrev retained_root : String → ℕ → Json → ℕ → Result (Unit {0})
  retained_root kind id state stored =
      then_with (invalid_unless (aggregate_root sha256_json kind id state == stored))
        λ _. positioned kind id state

  -- It does, unless the aggregate has no event yet.
  abbrev versioned_root : String → ℕ → Json → ℕ → Result (Unit {0})
  versioned_root kind id state stored =
      then_with (position_of kind id (aggregate_root sha256_json kind id state) h.events)
        λ v. invalid_unless (v == 0 || aggregate_root sha256_json kind id state == stored)

  -- the loops that the later phases have added
  unfoldable pub validate_later_projections : Result (Unit {0})
  validate_later_projections =
      then_with
        (each
          (λ (p : SoftwarePackage). positioned "SoftwarePackage" p.package_id (package_state h p))
          h.packages)
        λ _.
          then_with
            (each
              (λ (w : Workflow).
                retained_root w.aggregate_type w.aggregate_id (workflow_state w.detail)
                  w.aggregate_root)
              h.workflows)
            λ _.
              then_with
                (each
                  (λ (p : MessagePlan).
                    retained_root "MessagePlan" p.plan_id (message_plan_state p) p.aggregate_root)
                  h.message_plans)
                λ _.
                  then_with
                    (each (λ (c : Cycle). positioned "SemanticCycle" c.cycle_id (cycle_state h c))
                      h.cycles)
                    λ _.
                      each
                        (λ (m : Message).
                          positioned "SemanticMessage" m.message_id (message_state m))
                        h.messages

  unfoldable pub validate_kernel_projections : Result (Unit {0})
  unfolding generations validate_later_projections
  validate_kernel_projections =
      then_with
        (each (λ (g : Grant). positioned "AuthorityGrant" g.grant_id (grant_state g)) h.grants)
        λ _.
          then_with
            (each (λ (e : Endpoint). positioned "Endpoint" e.endpoint_id (endpoint_state e))
              h.endpoints)
            λ _.
              then_with
                (each (λ id. positioned "Mailbox" id (mailbox_state (generations h id) id))
                  (distinct (map (λ (m : Mailbox). m.mailbox_id) h.mailboxes)))
                λ _.
                  then_with
                    (each
                      (λ (p : Plan).
                        retained_root "ProvisioningPlan" p.plan_id (plan_state p) p.aggregate_root)
                      h.plans)
                    λ _.
                      then_with
                        (each
                          (λ (p : Project).
                            versioned_root "Project" p.project_id (project_state h p)
                              p.aggregate_root)
                          h.projects)
                        λ _.
                          then_with
                            (each
                              (λ (t : Task).
                                versioned_root "Task" t.task_id (task_state h t) t.aggregate_root)
                              h.tasks)
                            λ _. validate_later_projections
