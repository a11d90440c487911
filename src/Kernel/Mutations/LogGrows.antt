-- ===== src/Kernel/Mutations/LogGrows.antt =====
-- Every handler keeps the event log verified.
use codex_post_office.Base.{ℕ, ◌+◌, ◌≡◌, refl, String, List, [], ◌∷◌, Json, ok}
use codex_post_office.Hub.{Hub, Payload, project_payload, task_payload, Plan}
use codex_post_office.Kernel.Events.Append.{new_event}
use codex_post_office.Kernel.Events.Growth.{IsHistory}
use codex_post_office.Kernel.Authority.Call.{Call}
use codex_post_office.Kernel.Authority.Finalize.{Response}
use codex_post_office.Kernel.Grows.{
  Quiet-pure, Quiet-reading, Quiet-require, Quiet-row, Quiet-modify, Grows, Grows-Quiet, Grows-bind,
  Grows-bind-Quiet, Grows-position, GrowsAt-append, GrowsAt-bind-Quiet,
}
use codex_post_office.Kernel.Spending.{finalize_mutation-GrowsAt, finalize_mutation-Grows}
use codex_post_office.Kernel.Mutations.QuietSteps.{
  Quiet-prepare_authority, LinkIsQuiet, Made-task_change, Quiet-project_change, Quiet-plannable,
  Quiet-insert_target, Quiet-insert_mailbox, Quiet-grant_admissible,
}
use codex_post_office.Kernel.Mutations.Judgements.{
  GrowsAt-Made, GrowsAt-gate, GrowsAt-Still, Still, Still-bind, Still-Quiet, Still-append,
}
use codex_post_office.Kernel.Mutations.Tasks.{TaskOperation, task_mutation}
use codex_post_office.Kernel.Mutations.Grants.{GrantRequest, grant_mutation, revoke_mutation}
use codex_post_office.Kernel.Mutations.Endpoints.{
  EndpointRequest, allocate_endpoint, revoke_mailbox, revoke_mailboxes, revoke_endpoint,
}
use codex_post_office.Kernel.Mutations.Mailboxes.{allocate_mailbox, rotate_from, rotate_generation}
use codex_post_office.Kernel.Mutations.Plans.{
  plan_mutation, commit_plan, create_mutation, set_target_root, link_target,
}
use codex_post_office.Kernel.Mutations.Projects.{ProjectOperation, project_mutation}
use codex_post_office.Kernel.Mutations.Orderly.Catalogue.{
  register_package-Orderly, package_mutation-Orderly, interface_mutation-Orderly,
  cycle_mutation-Orderly,
}
use codex_post_office.Kernel.Mutations.Orderly.Mail.{
  plan_message-Orderly, supersede_bundle-Orderly, message_mutation-Orderly,
  preview_reconciliation-Orderly, apply_reconciliation-Orderly,
}
use codex_post_office.Kernel.Mutations.Orderly.Transport.{transport_mutation-Orderly}
use codex_post_office.Kernel.Mutations.Orderly.Workflow.{workflow_mutation-Orderly}
use codex_post_office.Kernel.Mutations.Execute
use codex_post_office.Kernel.Mutations.Execute.{Mutation, Environment, execute_mutation}

module _ (sha256_json : Json → ℕ) where
  task_mutation-Grows :
      (response_id : ℕ → ℕ → ℕ) (c : Call) (id : ℕ) (op : TaskOperation)
      → Grows sha256_json (task_mutation sha256_json response_id c id op)
  unfolding task_mutation
  task_mutation-Grows response_id c id op = Grows-bind-Quiet sha256_json _ _ (Quiet-row _ _) λ t.
      Grows-bind-Quiet sha256_json _ _ (Quiet-reading _) λ before_root.
        Grows-position sha256_json _ _ _ _ λ v. GrowsAt-gate sha256_json _ _ _ _ _ _ _ λ k i.
          GrowsAt-bind-Quiet sha256_json _ _ _ _ _ _ (Quiet-prepare_authority _ _) λ basis.
            GrowsAt-Made sha256_json LinkIsQuiet _ _ _ _ _ _ (Made-task_change response_id c t op)
              λ r link. GrowsAt-bind-Quiet sha256_json _ _ _ _ _ _ (Quiet-row _ _) λ _.
                GrowsAt-bind-Quiet sha256_json _ _ _ _ _ _ (Quiet-reading _) λ _.
                  GrowsAt-bind-Quiet sha256_json _ _ _ _ _ _ (Quiet-modify _ (λ h. refl)) λ _.
                    finalize_mutation-GrowsAt sha256_json c basis _ (λ e h. (link e h).0) v _ _ _
                      refl k i refl

  project_mutation-Grows :
      (c : Call) (id : ℕ) (op : ProjectOperation)
      → Grows sha256_json (project_mutation sha256_json c id op)
  unfolding project_mutation
  project_mutation-Grows c id op = Grows-bind-Quiet sha256_json _ _ (Quiet-row _ _) λ p.
      Grows-bind-Quiet sha256_json _ _ (Quiet-reading _) λ _.
        Grows-position sha256_json _ _ _ _ λ v. GrowsAt-gate sha256_json _ _ _ _ _ _ _ λ k i.
          GrowsAt-bind-Quiet sha256_json _ _ _ _ _ _ (Quiet-prepare_authority _ _) λ basis.
            GrowsAt-bind-Quiet sha256_json _ _ _ _ _ _ (Quiet-project_change p op) λ _.
              GrowsAt-bind-Quiet sha256_json _ _ _ _ _ _ (Quiet-row _ _) λ _.
                GrowsAt-bind-Quiet sha256_json _ _ _ _ _ _ (Quiet-reading _) λ _.
                  GrowsAt-bind-Quiet sha256_json _ _ _ _ _ _ (Quiet-modify _ (λ h. refl)) λ _.
                    finalize_mutation-GrowsAt sha256_json c basis _ (λ e h. refl) v _ _ _ refl k i
                      refl

  grant_mutation-Grows :
      (implemented : List String) (sort_names : List String → List String) (c : Call)
      (g : GrantRequest)
      → Grows sha256_json (grant_mutation sha256_json implemented sort_names c g)
  unfolding grant_mutation
  grant_mutation-Grows implemented sort_names c g =
      Grows-bind-Quiet sha256_json _ _ (Quiet-require _ _) λ _.
        Grows-bind-Quiet sha256_json _ _ (Quiet-require _ _) λ _.
          Grows-bind-Quiet sha256_json _ _ (Quiet-grant_admissible implemented c g) λ _.
            Grows-bind-Quiet sha256_json _ _ (Quiet-prepare_authority _ _) λ basis.
              Grows-bind-Quiet sha256_json _ _ (Quiet-modify _ (λ h. refl)) λ _.
                Grows-bind-Quiet sha256_json _ _ (Quiet-row _ _)
                  λ _. finalize_mutation-Grows sha256_json c basis _ (λ e h. refl) refl

  revoke_mutation-Grows :
      (c : Call) (id reason : ℕ) → Grows sha256_json (revoke_mutation sha256_json c id reason)
  unfolding revoke_mutation
  revoke_mutation-Grows c id reason = Grows-bind-Quiet sha256_json _ _ (Quiet-row _ _) λ _.
      Grows-position sha256_json _ _ _ _ λ v. GrowsAt-gate sha256_json _ _ _ _ _ _ _ λ k i.
        GrowsAt-bind-Quiet sha256_json _ _ _ _ _ _ (Quiet-require _ _) λ _.
          GrowsAt-bind-Quiet sha256_json _ _ _ _ _ _ (Quiet-prepare_authority _ _) λ basis.
            GrowsAt-bind-Quiet sha256_json _ _ _ _ _ _ (Quiet-modify _ (λ h. refl)) λ _.
              GrowsAt-bind-Quiet sha256_json _ _ _ _ _ _ (Quiet-row _ _) λ _.
                finalize_mutation-GrowsAt sha256_json c basis _ (λ e h. refl) v _ _ _ refl k i refl

  allocate_mailbox-Grows :
      (c : Call) (e d : ℕ) → Grows sha256_json (allocate_mailbox sha256_json c e d)
  unfolding allocate_mailbox
  allocate_mailbox-Grows c e d = Grows-bind-Quiet sha256_json _ _ (Quiet-require _ _) λ _.
      Grows-bind-Quiet sha256_json _ _ (Quiet-require _ _) λ _.
        Grows-bind-Quiet sha256_json _ _ (Quiet-row _ _) λ _.
          Grows-bind-Quiet sha256_json _ _ (Quiet-require _ _) λ _.
            Grows-bind-Quiet sha256_json _ _ (Quiet-row _ _) λ _.
              Grows-bind-Quiet sha256_json _ _ (Quiet-require _ _) λ _.
                Grows-bind-Quiet sha256_json _ _ (Quiet-prepare_authority _ _) λ basis.
                  Grows-bind-Quiet sha256_json _ _ (Quiet-insert_mailbox _) λ _.
                    Grows-bind-Quiet sha256_json _ _ (Quiet-reading _)
                      λ _. finalize_mutation-Grows sha256_json c basis _ (λ e h. refl) refl

  rotate_generation-Grows :
      (c : Call) (id reason : ℕ) → Grows sha256_json (rotate_generation sha256_json c id reason)
  unfolding rotate_generation rotate_from
  rotate_generation-Grows c id reason = Grows-bind-Quiet sha256_json _ _ (Quiet-reading _) λ _.
      Grows-bind-Quiet sha256_json _ _ (Quiet-require _ _) λ _.
        Grows-bind-Quiet sha256_json _ _ (Quiet-reading _) λ _.
          Grows-bind-Quiet sha256_json _ _ (Quiet-row _ _) λ _.
            Grows-bind-Quiet sha256_json _ _ (Quiet-require _ _) λ _.
              Grows-position sha256_json _ _ _ _ λ v. GrowsAt-gate sha256_json _ _ _ _ _ _ _ λ k i.
                GrowsAt-bind-Quiet sha256_json _ _ _ _ _ _ (Quiet-prepare_authority _ _) λ basis.
                  GrowsAt-bind-Quiet sha256_json _ _ _ _ _ _ (Quiet-modify _ (λ h. refl)) λ _.
                    GrowsAt-bind-Quiet sha256_json _ _ _ _ _ _ (Quiet-insert_mailbox _) λ _.
                      GrowsAt-bind-Quiet sha256_json _ _ _ _ _ _ (Quiet-reading _) λ _.
                        finalize_mutation-GrowsAt sha256_json c basis _ (λ e h. refl) v _ _ _ refl k
                          i refl

  allocate_endpoint-Grows :
      (actor_name : ℕ → ℕ) (c : Call) (r : EndpointRequest)
      → Grows sha256_json (allocate_endpoint sha256_json actor_name c r)
  unfolding allocate_endpoint
  allocate_endpoint-Grows actor_name c r = Grows-bind-Quiet sha256_json _ _ (Quiet-require _ _) λ _.
      Grows-bind-Quiet sha256_json _ _ (Quiet-require _ _) λ _.
        Grows-bind-Quiet sha256_json _ _ (Quiet-row _ _) λ _.
          Grows-bind-Quiet sha256_json _ _ (Quiet-require _ _) λ _.
            Grows-bind-Quiet sha256_json _ _ (Quiet-require _ _) λ _.
              Grows-bind-Quiet sha256_json _ _ (Quiet-prepare_authority _ _) λ basis.
                Grows-bind-Quiet sha256_json _ _ (Quiet-reading _) λ _.
                  Grows-bind-Quiet sha256_json _ _ (Quiet-require _ _) λ _.
                    Grows-bind-Quiet sha256_json _ _ (Quiet-modify _ (λ h. refl)) λ _.
                      Grows-bind-Quiet sha256_json _ _ (Quiet-require _ _) λ _.
                        Grows-bind-Quiet sha256_json _ _ (Quiet-modify _ (λ h. refl)) λ _.
                          Grows-bind-Quiet sha256_json _ _ (Quiet-row _ _)
                            λ _. finalize_mutation-Grows sha256_json c basis _ (λ e h. refl) refl

  revoke_mailbox-Grows :
      (c : Call) (endpoint_id draw id : ℕ)
      → Grows sha256_json (revoke_mailbox sha256_json c endpoint_id draw id)
  unfolding revoke_mailbox
  revoke_mailbox-Grows c endpoint_id draw id =
      Grows-bind-Quiet sha256_json _ _ (Quiet-reading _) λ _.
        Grows-position sha256_json _ _ _ _ λ v.
          GrowsAt-bind-Quiet sha256_json _ _ _ _ _ _ (Quiet-modify _ (λ h. refl)) λ _.
            GrowsAt-bind-Quiet sha256_json _ _ _ _ _ _ (Quiet-reading _)
              λ _. GrowsAt-append sha256_json _ v refl

  revoke_mailboxes-Grows :
      (c : Call) (endpoint_id draw : ℕ) (ids : List ℕ)
      → Grows sha256_json (revoke_mailboxes sha256_json c endpoint_id draw ids)
  unfolding revoke_mailboxes
  revoke_mailboxes-Grows c endpoint_id draw [] = Grows-Quiet sha256_json _ (Quiet-pure _)
  revoke_mailboxes-Grows c endpoint_id draw (id ∷ ids) =
      Grows-bind sha256_json _ _ (revoke_mailbox-Grows c endpoint_id draw id) λ _.
        Grows-bind sha256_json _ _ (revoke_mailboxes-Grows c endpoint_id (draw + 1) ids)
          λ _. Grows-Quiet sha256_json _ (Quiet-pure _)

  revoke_mailbox-Still :
      (endpoint : ℕ) (c : Call) (endpoint_id draw id : ℕ)
      → Still sha256_json "Endpoint" endpoint (revoke_mailbox sha256_json c endpoint_id draw id)
  unfolding revoke_mailbox new_event
  revoke_mailbox-Still endpoint c endpoint_id draw id =
      Still-bind sha256_json _ _ _ _ (Still-Quiet sha256_json _ _ _ (Quiet-reading _)) λ _.
        Still-bind sha256_json _ _ _ _ (Still-Quiet sha256_json _ _ _ (Quiet-reading _)) λ _.
          Still-bind sha256_json _ _ _ _
            (Still-Quiet sha256_json _ _ _ (Quiet-modify _ (λ h. refl)))
            λ _.
              Still-bind sha256_json _ _ _ _ (Still-Quiet sha256_json _ _ _ (Quiet-reading _))
                λ _. Still-append sha256_json _ _ _ (λ h. refl)

  revoke_mailboxes-Still :
      (endpoint : ℕ) (c : Call) (endpoint_id draw : ℕ) (ids : List ℕ)
      → Still sha256_json "Endpoint" endpoint (revoke_mailboxes sha256_json c endpoint_id draw ids)
  unfolding revoke_mailboxes
  revoke_mailboxes-Still endpoint c endpoint_id draw [] =
      Still-Quiet sha256_json _ _ _ (Quiet-pure _)
  revoke_mailboxes-Still endpoint c endpoint_id draw (id ∷ ids) =
      Still-bind sha256_json _ _ _ _ (revoke_mailbox-Still endpoint c endpoint_id draw id) λ _.
        Still-bind sha256_json _ _ _ _
          (revoke_mailboxes-Still endpoint c endpoint_id (draw + 1) ids)
          λ _. Still-Quiet sha256_json _ _ _ (Quiet-pure _)

  revoke_endpoint-Grows :
      (c : Call) (id reason : ℕ) → Grows sha256_json (revoke_endpoint sha256_json c id reason)
  unfolding revoke_endpoint
  revoke_endpoint-Grows c id reason = Grows-bind-Quiet sha256_json _ _ (Quiet-row _ _) λ _.
      Grows-position sha256_json _ _ _ _ λ v. GrowsAt-gate sha256_json _ _ _ _ _ _ _ λ k i.
        GrowsAt-bind-Quiet sha256_json _ _ _ _ _ _ (Quiet-require _ _) λ _.
          GrowsAt-bind-Quiet sha256_json _ _ _ _ _ _ (Quiet-prepare_authority _ _) λ basis.
            GrowsAt-bind-Quiet sha256_json _ _ _ _ _ _ (Quiet-reading _) λ ids.
              GrowsAt-Still sha256_json _ _ _ _ _ _ (revoke_mailboxes-Still id c id _ ids)
                (revoke_mailboxes-Grows c id _ ids)
                λ _. GrowsAt-bind-Quiet sha256_json _ _ _ _ _ _ (Quiet-modify _ (λ h. refl)) λ _.
                  GrowsAt-bind-Quiet sha256_json _ _ _ _ _ _ (Quiet-modify _ (λ h. refl)) λ _.
                    GrowsAt-bind-Quiet sha256_json _ _ _ _ _ _ (Quiet-row _ _) λ _.
                      finalize_mutation-GrowsAt sha256_json c basis _ (λ e h. refl) v _ _ _ refl k i
                        refl

  plan_mutation-Grows : (c : Call) (p : Payload) → Grows sha256_json (plan_mutation sha256_json c p)
  unfolding plan_mutation
  plan_mutation-Grows c p = Grows-bind-Quiet sha256_json _ _ (Quiet-require _ _) λ _.
      Grows-bind-Quiet sha256_json _ _ (Quiet-require _ _) λ _.
        Grows-bind-Quiet sha256_json _ _ (Quiet-require _ _) λ _.
          Grows-bind-Quiet sha256_json _ _ (Quiet-plannable p) λ _.
            Grows-bind-Quiet sha256_json _ _ (Quiet-prepare_authority _ _) λ basis.
              Grows-bind-Quiet sha256_json _ _ (Quiet-require _ _) λ _.
                Grows-bind-Quiet sha256_json _ _ (Quiet-modify _ (λ h. refl))
                  λ _. finalize_mutation-Grows sha256_json c basis _ (λ e h. refl) refl

  commit_plan-Grows :
      (c : Call) (p : Plan) (event : ℕ) → Grows sha256_json (commit_plan sha256_json c p event)
  unfolding commit_plan
  commit_plan-Grows c p event = Grows-position sha256_json _ _ _ _ λ v.
      GrowsAt-bind-Quiet sha256_json _ _ _ _ _ _ (Quiet-modify _ (λ h. refl)) λ _.
        GrowsAt-bind-Quiet sha256_json _ _ _ _ _ _ (Quiet-row _ _) λ _.
          GrowsAt-bind-Quiet sha256_json _ _ _ _ _ _ (Quiet-modify _ (λ h. refl))
            λ _. GrowsAt-append sha256_json _ v refl

  set_target_root-events :
      (p : Payload) (root : ℕ) (h : Hub) → (set_target_root p root h).events ≡ h.events
  set_target_root-events (project_payload p) root h = refl
  set_target_root-events (task_payload p) root h = refl

  link_target-events : (p : Payload) (e : ℕ) (h : Hub) → (link_target p e h).events ≡ h.events
  link_target-events (project_payload p) e h = refl
  link_target-events (task_payload p) e h = refl

  create_mutation-Grows :
      (c : Call) (kind : String) (plan_id root : ℕ)
      → Grows sha256_json (create_mutation sha256_json c kind plan_id root)
  unfolding create_mutation
  create_mutation-Grows c kind plan_id root =
      Grows-bind-Quiet sha256_json _ _ (Quiet-row _ _) λ plan.
        Grows-bind-Quiet sha256_json _ _ (Quiet-require _ _) λ _.
          Grows-bind-Quiet sha256_json _ _ (Quiet-require _ _) λ _.
            Grows-bind-Quiet sha256_json _ _ (Quiet-require _ _) λ _.
              Grows-bind-Quiet sha256_json _ _ (Quiet-require _ _) λ _.
                Grows-bind-Quiet sha256_json _ _ (Quiet-prepare_authority _ _) λ basis.
                  Grows-bind-Quiet sha256_json _ _ (Quiet-insert_target plan.payload) λ detail.
                    Grows-bind-Quiet sha256_json _ _
                      (Quiet-modify _ (set_target_root-events plan.payload _))
                      λ _.
                        Grows-bind sha256_json _ _
                          (finalize_mutation-Grows sha256_json c basis _
                            (link_target-events plan.payload) refl)
                          λ r.
                            Grows-bind sha256_json _ _ (commit_plan-Grows c plan r.event_id)
                              λ _. Grows-Quiet sha256_json _ (Quiet-pure _)

execute_mutation-Grows :
    (v : Environment) (c : Call) (m : Mutation) → Grows v.sha256_json (execute_mutation v c m)
unfolding execute_mutation
execute_mutation-Grows v c (Execute.plan_create p) = plan_mutation-Grows v.sha256_json c p
execute_mutation-Grows v c (Execute.create k p root) =
    create_mutation-Grows v.sha256_json c k p root
execute_mutation-Grows v c (Execute.project id op) = project_mutation-Grows v.sha256_json c id op
execute_mutation-Grows v c (Execute.task id op) =
    task_mutation-Grows v.sha256_json v.response_id c id op
execute_mutation-Grows v c (Execute.grant g) =
    grant_mutation-Grows v.sha256_json v.implemented v.sort_names c g
execute_mutation-Grows v c (Execute.revoke id r) = revoke_mutation-Grows v.sha256_json c id r
execute_mutation-Grows v c (Execute.endpoint_allocate r) =
    allocate_endpoint-Grows v.sha256_json v.actor_name c r
execute_mutation-Grows v c (Execute.endpoint_revoke id r) =
    revoke_endpoint-Grows v.sha256_json c id r
execute_mutation-Grows v c (Execute.mailbox_allocate e d) =
    allocate_mailbox-Grows v.sha256_json c e d
execute_mutation-Grows v c (Execute.mailbox_rotate id r) =
    rotate_generation-Grows v.sha256_json c id r
execute_mutation-Grows v c (Execute.package_register d) =
    (register_package-Orderly v.sha256_json c d).grows
execute_mutation-Grows v c (Execute.software_package id op) =
    (package_mutation-Orderly v.sha256_json c v.rehome_id id op).grows
execute_mutation-Grows v c (Execute.interface id op) =
    (interface_mutation-Orderly v.sha256_json c id op).grows
execute_mutation-Grows v c (Execute.workflow id op) =
    (workflow_mutation-Orderly v.sha256_json v.names_secret v.context_bundle_id c id op).grows
execute_mutation-Grows v c (Execute.cycle id op) =
    (cycle_mutation-Orderly v.sha256_json c id op).grows
execute_mutation-Grows v c (Execute.message_plan m b) =
    (plan_message-Orderly v.sha256_json c m b).grows
execute_mutation-Grows v c (Execute.bundle_supersede f sha b) =
    (supersede_bundle-Orderly v.sha256_json c f sha b).grows
execute_mutation-Grows v c (Execute.message op) =
    (message_mutation-Orderly v.sha256_json c op).grows
execute_mutation-Grows v c (Execute.reconcile_preview root ids) =
    (preview_reconciliation-Orderly v.sha256_json c root ids).grows
execute_mutation-Grows v c (Execute.reconcile_apply id root) =
    (apply_reconciliation-Orderly v.sha256_json c id root).grows
execute_mutation-Grows v c (Execute.transport id op) =
    (transport_mutation-Orderly v.sha256_json c id op).grows

-- Whatever modelled mutation succeeds on a hub with a verified event log (one that
-- `validate_hub_event_chain` accepts, and in which the history of every aggregate begins at version
-- 1), the log that it leaves is verified.
pub execute_mutation-IsHistory :
    (v : Environment) (c : Call) (m : Mutation) (h g : Hub) (r : Response)
    → IsHistory v.sha256_json h.events
    → execute_mutation v c m h ≡ ok (r, g)
    → IsHistory v.sha256_json g.events
execute_mutation-IsHistory v c m h g r history done =
    (execute_mutation-Grows v c m).at h r g history done
