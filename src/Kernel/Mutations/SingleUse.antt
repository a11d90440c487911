-- ===== src/Kernel/Mutations/SingleUse.antt =====
-- An author's action authorises one mutation.
use codex_post_office.Base.{ℕ, ◌≡◌, refl, false, some, List, Json, String, ok, is_ok}
use codex_post_office.Hub.{Hub, Plan, Payload, project_payload, task_payload}
use codex_post_office.Kernel.Transaction.{Tx}
use codex_post_office.Kernel.Authority.Call.{Call}
use codex_post_office.Kernel.Authority.Finalize.{Response}
use codex_post_office.Kernel.Authority.Actions.{
  actions_of, IsConsumed, prepare_mutation_authority-Gives, finalize_mutation-Ends,
}
use codex_post_office.Kernel.Steps.{
  Keeps, Keeps-pure, Keeps-reading, Keeps-modify, Keeps-bind, Gives, Ends, Ends-bind, Ends-then,
  Ends-Gives,
}
use codex_post_office.Kernel.Mutations.Judgements.{Keeps-append}
use codex_post_office.Kernel.Mutations.QuietSteps.{Made, LinkIsQuiet, Made-task_change}
use codex_post_office.Kernel.Mutations.Tasks.{TaskOperation, task_mutation}
use codex_post_office.Kernel.Mutations.Grants.{GrantRequest, grant_mutation, revoke_mutation}
use codex_post_office.Kernel.Mutations.Endpoints.{
  EndpointRequest, allocate_endpoint, revoke_endpoint,
}
use codex_post_office.Kernel.Mutations.Mailboxes.{allocate_mailbox, rotate_from, rotate_generation}
use codex_post_office.Kernel.Mutations.Plans.{
  plan_mutation, commit_plan, create_mutation, link_target,
}
use codex_post_office.Kernel.Mutations.Projects.{ProjectOperation, project_mutation}
use codex_post_office.Kernel.Mutations.Orderly.Catalogue.{
  register_package-Orderly, package_mutation-Orderly, interface_mutation-Orderly,
  cycle_mutation-Orderly,
}
use codex_post_office.Kernel.Mutations.Orderly.Mail.{
  plan_message-Orderly, supersede_bundle-Orderly, message_mutation-Orderly,
  preview_reconciliation-Orderly, apply_reconciliation-Orderly,
}
use codex_post_office.Kernel.Mutations.Orderly.Transport.{transport_mutation-Orderly}
use codex_post_office.Kernel.Mutations.Orderly.Workflow.{workflow_mutation-Orderly}
use codex_post_office.Kernel.Authority.Authorised.{IsConsumed-Unauthorised}
use codex_post_office.Kernel.Mutations.Guarded.{execute_mutation-Blocked}
use codex_post_office.Kernel.Mutations.Execute
use codex_post_office.Kernel.Mutations.Execute.{Mutation, Environment, execute_mutation}

link_target-actions : (p : Payload) (e : ℕ) (h : Hub) → (link_target p e h).actions ≡ h.actions
link_target-actions (project_payload p) e h = refl
link_target-actions (task_payload p) e h = refl

task_change-Gives :
    {A : Type 0} (P : A → Type 0) (Q : Hub → Type 0) (m : Tx A) → Made P m → Gives P m
task_change-Gives P Q m made = record { at = λ h a g e. (made.at h a g e).1 }

module _ (sha256_json : Json → ℕ) (c : Call) (action : ℕ)
    (named : c.request.exact_author_action_id ≡ some action) where
  task_mutation-Ends :
      (response_id : ℕ → ℕ → ℕ) (id : ℕ) (op : TaskOperation)
      → Ends actions_of (IsConsumed action) (task_mutation sha256_json response_id c id op)
  unfolding task_mutation
  task_mutation-Ends response_id id op = Ends-bind _ _ _ _ λ t. Ends-bind _ _ _ _ λ _.
      Ends-bind _ _ _ _ λ _. Ends-bind _ _ _ _ λ _.
        Ends-Gives _ _ _ _ _ (prepare_mutation_authority-Gives c _ action named) λ basis same.
          Ends-Gives _ _ _ _ LinkIsQuiet
            (task_change-Gives LinkIsQuiet (λ h. Unit) _ (Made-task_change response_id c t op))
            λ r link. Ends-bind _ _ _ _ λ _. Ends-bind _ _ _ _ λ _.
              Ends-bind _ _ _ _
                λ _. finalize_mutation-Ends sha256_json c basis _ action same (λ e h. (link e h).1)

  project_mutation-Ends :
      (id : ℕ) (op : ProjectOperation)
      → Ends actions_of (IsConsumed action) (project_mutation sha256_json c id op)
  unfolding project_mutation
  project_mutation-Ends id op = Ends-bind _ _ _ _ λ _. Ends-bind _ _ _ _ λ _. Ends-bind _ _ _ _ λ _.
      Ends-bind _ _ _ _ λ _.
        Ends-Gives _ _ _ _ _ (prepare_mutation_authority-Gives c _ action named) λ basis same.
          Ends-bind _ _ _ _ λ _. Ends-bind _ _ _ _ λ _. Ends-bind _ _ _ _ λ _.
            Ends-bind _ _ _ _
              λ _. finalize_mutation-Ends sha256_json c basis _ action same (λ e h. refl)

  grant_mutation-Ends :
      (implemented : List String) (sort_names : List String → List String) (g : GrantRequest)
      → Ends actions_of (IsConsumed action) (grant_mutation sha256_json implemented sort_names c g)
  unfolding grant_mutation
  grant_mutation-Ends implemented sort_names g = Ends-bind _ _ _ _ λ _. Ends-bind _ _ _ _ λ _.
      Ends-bind _ _ _ _ λ _.
        Ends-Gives _ _ _ _ _ (prepare_mutation_authority-Gives c _ action named) λ basis same.
          Ends-bind _ _ _ _ λ _.
            Ends-bind _ _ _ _
              λ _. finalize_mutation-Ends sha256_json c basis _ action same (λ e h. refl)

  revoke_mutation-Ends :
      (id reason : ℕ)
      → Ends actions_of (IsConsumed action) (revoke_mutation sha256_json c id reason)
  unfolding revoke_mutation
  revoke_mutation-Ends id reason = Ends-bind _ _ _ _ λ _. Ends-bind _ _ _ _ λ _.
      Ends-bind _ _ _ _ λ _. Ends-bind _ _ _ _ λ _.
        Ends-Gives _ _ _ _ _ (prepare_mutation_authority-Gives c _ action named) λ basis same.
          Ends-bind _ _ _ _ λ _.
            Ends-bind _ _ _ _
              λ _. finalize_mutation-Ends sha256_json c basis _ action same (λ e h. refl)

  allocate_endpoint-Ends :
      (actor_name : ℕ → ℕ) (r : EndpointRequest)
      → Ends actions_of (IsConsumed action) (allocate_endpoint sha256_json actor_name c r)
  unfolding allocate_endpoint
  allocate_endpoint-Ends actor_name r = Ends-bind _ _ _ _ λ _. Ends-bind _ _ _ _ λ _.
      Ends-bind _ _ _ _ λ _. Ends-bind _ _ _ _ λ _. Ends-bind _ _ _ _ λ _.
        Ends-Gives _ _ _ _ _ (prepare_mutation_authority-Gives c _ action named) λ basis same.
          Ends-bind _ _ _ _ λ _. Ends-bind _ _ _ _ λ _. Ends-bind _ _ _ _ λ _.
            Ends-bind _ _ _ _ λ _. Ends-bind _ _ _ _ λ _.
              Ends-bind _ _ _ _
                λ _. finalize_mutation-Ends sha256_json c basis _ action same (λ e h. refl)

  revoke_endpoint-Ends :
      (id reason : ℕ)
      → Ends actions_of (IsConsumed action) (revoke_endpoint sha256_json c id reason)
  unfolding revoke_endpoint
  revoke_endpoint-Ends id reason = Ends-bind _ _ _ _ λ _. Ends-bind _ _ _ _ λ _.
      Ends-bind _ _ _ _ λ _. Ends-bind _ _ _ _ λ _.
        Ends-Gives _ _ _ _ _ (prepare_mutation_authority-Gives c _ action named) λ basis same.
          Ends-bind _ _ _ _ λ _. Ends-bind _ _ _ _ λ _. Ends-bind _ _ _ _ λ _.
            Ends-bind _ _ _ _ λ _.
              Ends-bind _ _ _ _
                λ _. finalize_mutation-Ends sha256_json c basis _ action same (λ e h. refl)

  allocate_mailbox-Ends :
      (e d : ℕ) → Ends actions_of (IsConsumed action) (allocate_mailbox sha256_json c e d)
  unfolding allocate_mailbox
  allocate_mailbox-Ends e d = Ends-bind _ _ _ _ λ _. Ends-bind _ _ _ _ λ _. Ends-bind _ _ _ _ λ _.
      Ends-bind _ _ _ _ λ _. Ends-bind _ _ _ _ λ _. Ends-bind _ _ _ _ λ _.
        Ends-Gives _ _ _ _ _ (prepare_mutation_authority-Gives c _ action named) λ basis same.
          Ends-bind _ _ _ _ λ _.
            Ends-bind _ _ _ _
              λ _. finalize_mutation-Ends sha256_json c basis _ action same (λ e h. refl)

  rotate_generation-Ends :
      (id reason : ℕ)
      → Ends actions_of (IsConsumed action) (rotate_generation sha256_json c id reason)
  unfolding rotate_generation rotate_from
  rotate_generation-Ends id reason = Ends-bind _ _ _ _ λ _. Ends-bind _ _ _ _ λ _.
      Ends-bind _ _ _ _ λ _. Ends-bind _ _ _ _ λ _. Ends-bind _ _ _ _ λ _. Ends-bind _ _ _ _ λ _.
        Ends-bind _ _ _ _ λ _.
          Ends-Gives _ _ _ _ _ (prepare_mutation_authority-Gives c _ action named) λ basis same.
            Ends-bind _ _ _ _ λ _. Ends-bind _ _ _ _ λ _.
              Ends-bind _ _ _ _
                λ _. finalize_mutation-Ends sha256_json c basis _ action same (λ e h. refl)

  plan_mutation-Ends :
      (p : Payload) → Ends actions_of (IsConsumed action) (plan_mutation sha256_json c p)
  unfolding plan_mutation
  plan_mutation-Ends p = Ends-bind _ _ _ _ λ _. Ends-bind _ _ _ _ λ _. Ends-bind _ _ _ _ λ _.
      Ends-bind _ _ _ _ λ _.
        Ends-Gives _ _ _ _ _ (prepare_mutation_authority-Gives c _ action named) λ basis same.
          Ends-bind _ _ _ _ λ _.
            Ends-bind _ _ _ _
              λ _. finalize_mutation-Ends sha256_json c basis _ action same (λ e h. refl)

  Keeps-commit_plan : (p : Plan) (event : ℕ) → Keeps actions_of (commit_plan sha256_json c p event)
  unfolding commit_plan
  Keeps-commit_plan p event = Keeps-bind _ _ _ (Keeps-reading _ _) λ _.
      Keeps-bind _ _ _ (Keeps-modify _ _ (λ h. refl)) λ _.
        Keeps-bind _ _ _ (Keeps-reading _ _)
          λ _. Keeps-bind _ _ _ (Keeps-modify _ _ (λ h. refl)) λ _. Keeps-append sha256_json _

  create_mutation-Ends :
      (kind : String) (plan_id root : ℕ)
      → Ends actions_of (IsConsumed action) (create_mutation sha256_json c kind plan_id root)
  unfolding create_mutation
  create_mutation-Ends kind plan_id root = Ends-bind _ _ _ _ λ plan. Ends-bind _ _ _ _ λ _.
      Ends-bind _ _ _ _ λ _. Ends-bind _ _ _ _ λ _. Ends-bind _ _ _ _ λ _.
        Ends-Gives _ _ _ _ _ (prepare_mutation_authority-Gives c _ action named) λ basis same.
          Ends-bind _ _ _ _ λ _. Ends-bind _ _ _ _ λ _.
            Ends-then _ _ _ _
              (finalize_mutation-Ends sha256_json c basis _ action same
                (link_target-actions plan.payload))
              λ r. Keeps-bind _ _ _ (Keeps-commit_plan plan r.event_id) λ _. Keeps-pure _ _

execute_mutation-Ends :
    (v : Environment) (c : Call) (action : ℕ) (m : Mutation)
    → c.request.exact_author_action_id ≡ some action
    → Ends actions_of (IsConsumed action) (execute_mutation v c m)
unfolding execute_mutation
execute_mutation-Ends v c action (Execute.plan_create p) named =
    plan_mutation-Ends v.sha256_json c action named p
execute_mutation-Ends v c action (Execute.create k p root) named =
    create_mutation-Ends v.sha256_json c action named k p root
execute_mutation-Ends v c action (Execute.project id op) named =
    project_mutation-Ends v.sha256_json c action named id op
execute_mutation-Ends v c action (Execute.task id op) named =
    task_mutation-Ends v.sha256_json c action named v.response_id id op
execute_mutation-Ends v c action (Execute.grant g) named =
    grant_mutation-Ends v.sha256_json c action named v.implemented v.sort_names g
execute_mutation-Ends v c action (Execute.revoke id r) named =
    revoke_mutation-Ends v.sha256_json c action named id r
execute_mutation-Ends v c action (Execute.endpoint_allocate r) named =
    allocate_endpoint-Ends v.sha256_json c action named v.actor_name r
execute_mutation-Ends v c action (Execute.endpoint_revoke id r) named =
    revoke_endpoint-Ends v.sha256_json c action named id r
execute_mutation-Ends v c action (Execute.mailbox_allocate e d) named =
    allocate_mailbox-Ends v.sha256_json c action named e d
execute_mutation-Ends v c action (Execute.mailbox_rotate id r) named =
    rotate_generation-Ends v.sha256_json c action named id r
execute_mutation-Ends v c action (Execute.package_register d) named =
    (register_package-Orderly v.sha256_json c d).ends action named
execute_mutation-Ends v c action (Execute.software_package id op) named =
    (package_mutation-Orderly v.sha256_json c v.rehome_id id op).ends action named
execute_mutation-Ends v c action (Execute.interface id op) named =
    (interface_mutation-Orderly v.sha256_json c id op).ends action named
execute_mutation-Ends v c action (Execute.workflow id op) named =
    (workflow_mutation-Orderly v.sha256_json v.names_secret v.context_bundle_id c id op).ends action
      named
execute_mutation-Ends v c action (Execute.cycle id op) named =
    (cycle_mutation-Orderly v.sha256_json c id op).ends action named
execute_mutation-Ends v c action (Execute.message_plan m b) named =
    (plan_message-Orderly v.sha256_json c m b).ends action named
execute_mutation-Ends v c action (Execute.bundle_supersede f sha b) named =
    (supersede_bundle-Orderly v.sha256_json c f sha b).ends action named
execute_mutation-Ends v c action (Execute.message op) named =
    (message_mutation-Orderly v.sha256_json c op).ends action named
execute_mutation-Ends v c action (Execute.reconcile_preview root ids) named =
    (preview_reconciliation-Orderly v.sha256_json c root ids).ends action named
execute_mutation-Ends v c action (Execute.reconcile_apply id root) named =
    (apply_reconciliation-Orderly v.sha256_json c id root).ends action named
execute_mutation-Ends v c action (Execute.transport id op) named =
    (transport_mutation-Orderly v.sha256_json c id op).ends action named

-- An author's action authorises at most one mutation: when a modelled mutation that names it has
-- succeeded, no modelled mutation that names it succeeds on the hub that is left.
pub execute_mutation-spends :
    (v : Environment) (c c' : Call) (m m' : Mutation) (action : ℕ) (h g : Hub) (r : Response)
    → c.request.exact_author_action_id ≡ some action
    → c'.request.exact_author_action_id ≡ some action
    → execute_mutation v c m h ≡ ok (r, g)
    → is_ok (execute_mutation v c' m' g) ≡ false
execute_mutation-spends v c c' m m' action h g r named named' done =
    (execute_mutation-Blocked v c' m').at g (
      IsConsumed-Unauthorised c' action g named'
        ((execute_mutation-Ends v c action m named).at h r g done))
