-- ===== src/Kernel/Mutations/Guarded.antt =====
-- No mutation without authority: every handler refuses an unauthorised call.
use codex_post_office.Base.{ℕ, ◌≡◌, List, Json, String, ok, inl, inr, arith, Bool-cases}
use codex_post_office.Hub.{Scope, Hub, Payload, project_payload, task_payload}
use codex_post_office.Kernel.Authority.Call.{Call}
use codex_post_office.Kernel.Authority.Finalize.{Response}
use codex_post_office.Kernel.Authority.Permitted.{Permitted}
use codex_post_office.Kernel.Authority.Permits.{authorised-Permitted}
use codex_post_office.Kernel.Authority.Authorised.{
  authorised, whole, Unauthorised, prepare_mutation_authority-Unauthorised,
}
use codex_post_office.Kernel.Steps.{
  Keeps, Keeps-reading, Keeps-bind, Blocked, Blocked-here, Blocked-later,
}
use codex_post_office.Kernel.Mutations.Tasks.{TaskOperation, task_mutation}
use codex_post_office.Kernel.Mutations.Grants.{
  GrantRequest, grant_mutation, revoke_mutation, grant_admissible,
}
use codex_post_office.Kernel.Mutations.Endpoints.{
  EndpointRequest, allocate_endpoint, revoke_endpoint,
}
use codex_post_office.Kernel.Mutations.Mailboxes.{allocate_mailbox, rotate_from, rotate_generation}
use codex_post_office.Kernel.Mutations.Plans.{
  plan_mutation, create_mutation, plannable, project_plannable, task_plannable,
}
use codex_post_office.Kernel.Mutations.Projects.{ProjectOperation, project_mutation}
use codex_post_office.Kernel.Mutations.Orderly.Catalogue.{
  register_package-Orderly, package_mutation-Orderly, interface_mutation-Orderly,
  cycle_mutation-Orderly,
}
use codex_post_office.Kernel.Mutations.Orderly.Mail.{
  plan_message-Orderly, supersede_bundle-Orderly, message_mutation-Orderly,
  preview_reconciliation-Orderly, apply_reconciliation-Orderly,
}
use codex_post_office.Kernel.Mutations.Orderly.Transport.{transport_mutation-Orderly}
use codex_post_office.Kernel.Mutations.Orderly.Workflow.{workflow_mutation-Orderly}
use codex_post_office.Kernel.Mutations.Execute
use codex_post_office.Kernel.Mutations.Execute.{Mutation, Environment, execute_mutation}

Keeps-plannable : (p : Payload) → Keeps whole (plannable p)
unfolding plannable project_plannable task_plannable
Keeps-plannable (project_payload p) =
    Keeps-bind _ _ _ (Keeps-reading _ _)
      λ _. Keeps-bind _ _ _ (Keeps-reading _ _) λ _. Keeps-reading _ _
Keeps-plannable (task_payload p) = Keeps-bind _ _ _ (Keeps-reading _ _) λ _.
    Keeps-bind _ _ _ (Keeps-reading _ _) λ _. Keeps-bind _ _ _ (Keeps-reading _ _) λ _.
      Keeps-bind _ _ _ (Keeps-reading _ _) λ _.
        Keeps-bind _ _ _ (Keeps-reading _ _)
          λ _. Keeps-bind _ _ _ (Keeps-reading _ _) λ _. Keeps-reading _ _

Keeps-grant_admissible :
    (names : List String) (c : Call) (g : GrantRequest) → Keeps whole (grant_admissible names c g)
Keeps-grant_admissible names c g = Keeps-bind _ _ _ (Keeps-reading _ _) λ _.
    Keeps-bind _ _ _ (Keeps-reading _ _) λ _. Keeps-bind _ _ _ (Keeps-reading _ _) λ _.
      Keeps-bind _ _ _ (Keeps-reading _ _)
        λ _. Keeps-bind _ _ _ (Keeps-reading _ _) λ _. Keeps-reading _ _

module _ (sha256_json : Json → ℕ) (c : Call) where
  task_mutation-Blocked :
      (response_id : ℕ → ℕ → ℕ) (id : ℕ) (op : TaskOperation)
      → Blocked whole (Unauthorised c) (task_mutation sha256_json response_id c id op)
  unfolding task_mutation
  task_mutation-Blocked response_id id op = Blocked-later _ _ _ _ (Keeps-reading _ _) λ _.
      Blocked-later _ _ _ _ (Keeps-reading _ _) λ _. Blocked-later _ _ _ _ (Keeps-reading _ _) λ _.
        Blocked-later _ _ _ _ (Keeps-reading _ _)
          λ _. Blocked-here _ _ _ _ (prepare_mutation_authority-Unauthorised c _)

  project_mutation-Blocked :
      (id : ℕ) (op : ProjectOperation)
      → Blocked whole (Unauthorised c) (project_mutation sha256_json c id op)
  unfolding project_mutation
  project_mutation-Blocked id op = Blocked-later _ _ _ _ (Keeps-reading _ _) λ _.
      Blocked-later _ _ _ _ (Keeps-reading _ _) λ _. Blocked-later _ _ _ _ (Keeps-reading _ _) λ _.
        Blocked-later _ _ _ _ (Keeps-reading _ _)
          λ _. Blocked-here _ _ _ _ (prepare_mutation_authority-Unauthorised c _)

  grant_mutation-Blocked :
      (implemented : List String) (sort_names : List String → List String) (g : GrantRequest)
      → Blocked whole (Unauthorised c) (grant_mutation sha256_json implemented sort_names c g)
  unfolding grant_mutation
  grant_mutation-Blocked implemented sort_names g = Blocked-later _ _ _ _ (Keeps-reading _ _) λ _.
      Blocked-later _ _ _ _ (Keeps-reading _ _) λ _.
        Blocked-later _ _ _ _ (Keeps-grant_admissible implemented c g)
          λ _. Blocked-here _ _ _ _ (prepare_mutation_authority-Unauthorised c _)

  revoke_mutation-Blocked :
      (id reason : ℕ) → Blocked whole (Unauthorised c) (revoke_mutation sha256_json c id reason)
  unfolding revoke_mutation
  revoke_mutation-Blocked id reason = Blocked-later _ _ _ _ (Keeps-reading _ _) λ _.
      Blocked-later _ _ _ _ (Keeps-reading _ _) λ _. Blocked-later _ _ _ _ (Keeps-reading _ _) λ _.
        Blocked-later _ _ _ _ (Keeps-reading _ _)
          λ _. Blocked-here _ _ _ _ (prepare_mutation_authority-Unauthorised c _)

  allocate_endpoint-Blocked :
      (actor_name : ℕ → ℕ) (r : EndpointRequest)
      → Blocked whole (Unauthorised c) (allocate_endpoint sha256_json actor_name c r)
  unfolding allocate_endpoint
  allocate_endpoint-Blocked actor_name r = Blocked-later _ _ _ _ (Keeps-reading _ _) λ _.
      Blocked-later _ _ _ _ (Keeps-reading _ _) λ _. Blocked-later _ _ _ _ (Keeps-reading _ _) λ _.
        Blocked-later _ _ _ _ (Keeps-reading _ _) λ _.
          Blocked-later _ _ _ _ (Keeps-reading _ _)
            λ _. Blocked-here _ _ _ _ (prepare_mutation_authority-Unauthorised c _)

  revoke_endpoint-Blocked :
      (id reason : ℕ) → Blocked whole (Unauthorised c) (revoke_endpoint sha256_json c id reason)
  unfolding revoke_endpoint
  revoke_endpoint-Blocked id reason = Blocked-later _ _ _ _ (Keeps-reading _ _) λ _.
      Blocked-later _ _ _ _ (Keeps-reading _ _) λ _. Blocked-later _ _ _ _ (Keeps-reading _ _) λ _.
        Blocked-later _ _ _ _ (Keeps-reading _ _)
          λ _. Blocked-here _ _ _ _ (prepare_mutation_authority-Unauthorised c _)

  allocate_mailbox-Blocked :
      (e d : ℕ) → Blocked whole (Unauthorised c) (allocate_mailbox sha256_json c e d)
  unfolding allocate_mailbox
  allocate_mailbox-Blocked e d = Blocked-later _ _ _ _ (Keeps-reading _ _) λ _.
      Blocked-later _ _ _ _ (Keeps-reading _ _) λ _. Blocked-later _ _ _ _ (Keeps-reading _ _) λ _.
        Blocked-later _ _ _ _ (Keeps-reading _ _) λ _.
          Blocked-later _ _ _ _ (Keeps-reading _ _) λ _.
            Blocked-later _ _ _ _ (Keeps-reading _ _)
              λ _. Blocked-here _ _ _ _ (prepare_mutation_authority-Unauthorised c _)

  rotate_generation-Blocked :
      (id reason : ℕ) → Blocked whole (Unauthorised c) (rotate_generation sha256_json c id reason)
  unfolding rotate_generation rotate_from
  rotate_generation-Blocked id reason = Blocked-later _ _ _ _ (Keeps-reading _ _) λ _.
      Blocked-later _ _ _ _ (Keeps-reading _ _) λ _. Blocked-later _ _ _ _ (Keeps-reading _ _) λ _.
        Blocked-later _ _ _ _ (Keeps-reading _ _) λ _.
          Blocked-later _ _ _ _ (Keeps-reading _ _) λ _.
            Blocked-later _ _ _ _ (Keeps-reading _ _) λ _.
              Blocked-later _ _ _ _ (Keeps-reading _ _)
                λ _. Blocked-here _ _ _ _ (prepare_mutation_authority-Unauthorised c _)

  plan_mutation-Blocked :
      (p : Payload) → Blocked whole (Unauthorised c) (plan_mutation sha256_json c p)
  unfolding plan_mutation
  plan_mutation-Blocked p = Blocked-later _ _ _ _ (Keeps-reading _ _) λ _.
      Blocked-later _ _ _ _ (Keeps-reading _ _) λ _. Blocked-later _ _ _ _ (Keeps-reading _ _) λ _.
        Blocked-later _ _ _ _ (Keeps-plannable p)
          λ _. Blocked-here _ _ _ _ (prepare_mutation_authority-Unauthorised c _)

  create_mutation-Blocked :
      (kind : String) (plan_id root : ℕ)
      → Blocked whole (Unauthorised c) (create_mutation sha256_json c kind plan_id root)
  unfolding create_mutation
  create_mutation-Blocked kind plan_id root = Blocked-later _ _ _ _ (Keeps-reading _ _) λ _.
      Blocked-later _ _ _ _ (Keeps-reading _ _) λ _. Blocked-later _ _ _ _ (Keeps-reading _ _) λ _.
        Blocked-later _ _ _ _ (Keeps-reading _ _) λ _.
          Blocked-later _ _ _ _ (Keeps-reading _ _)
            λ _. Blocked-here _ _ _ _ (prepare_mutation_authority-Unauthorised c _)

pub execute_mutation-Blocked :
    (v : Environment) (c : Call) (m : Mutation)
    → Blocked whole (Unauthorised c) (execute_mutation v c m)
unfolding execute_mutation
execute_mutation-Blocked v c (Execute.plan_create p) = plan_mutation-Blocked v.sha256_json c p
execute_mutation-Blocked v c (Execute.create k p root) =
    create_mutation-Blocked v.sha256_json c k p root
execute_mutation-Blocked v c (Execute.project id op) =
    project_mutation-Blocked v.sha256_json c id op
execute_mutation-Blocked v c (Execute.task id op) =
    task_mutation-Blocked v.sha256_json c v.response_id id op
execute_mutation-Blocked v c (Execute.grant g) =
    grant_mutation-Blocked v.sha256_json c v.implemented v.sort_names g
execute_mutation-Blocked v c (Execute.revoke id r) = revoke_mutation-Blocked v.sha256_json c id r
execute_mutation-Blocked v c (Execute.endpoint_allocate r) =
    allocate_endpoint-Blocked v.sha256_json c v.actor_name r
execute_mutation-Blocked v c (Execute.endpoint_revoke id r) =
    revoke_endpoint-Blocked v.sha256_json c id r
execute_mutation-Blocked v c (Execute.mailbox_allocate e d) =
    allocate_mailbox-Blocked v.sha256_json c e d
execute_mutation-Blocked v c (Execute.mailbox_rotate id r) =
    rotate_generation-Blocked v.sha256_json c id r
execute_mutation-Blocked v c (Execute.package_register d) =
    (register_package-Orderly v.sha256_json c d).blocked
execute_mutation-Blocked v c (Execute.software_package id op) =
    (package_mutation-Orderly v.sha256_json c v.rehome_id id op).blocked
execute_mutation-Blocked v c (Execute.interface id op) =
    (interface_mutation-Orderly v.sha256_json c id op).blocked
execute_mutation-Blocked v c (Execute.workflow id op) =
    (workflow_mutation-Orderly v.sha256_json v.names_secret v.context_bundle_id c id op).blocked
execute_mutation-Blocked v c (Execute.cycle id op) =
    (cycle_mutation-Orderly v.sha256_json c id op).blocked
execute_mutation-Blocked v c (Execute.message_plan m b) =
    (plan_message-Orderly v.sha256_json c m b).blocked
execute_mutation-Blocked v c (Execute.bundle_supersede f sha b) =
    (supersede_bundle-Orderly v.sha256_json c f sha b).blocked
execute_mutation-Blocked v c (Execute.message op) =
    (message_mutation-Orderly v.sha256_json c op).blocked
execute_mutation-Blocked v c (Execute.reconcile_preview root ids) =
    (preview_reconciliation-Orderly v.sha256_json c root ids).blocked
execute_mutation-Blocked v c (Execute.reconcile_apply id root) =
    (apply_reconciliation-Orderly v.sha256_json c id root).blocked
execute_mutation-Blocked v c (Execute.transport id op) =
    (transport_mutation-Orderly v.sha256_json c id op).blocked

-- No mutation without authority, whatever its kind: a mutation that succeeds names one basis, an
-- author's action that is new or that is retained as this very request and unconsumed, or a grant that
-- is the caller's, active, for this operation, neither expired nor spent, and with a scope that
-- constrains something and covers some facts.
pub execute_mutation-authorised :
    (v : Environment) (c : Call) (m : Mutation) (h g : Hub) (r : Response)
    → execute_mutation v c m h ≡ ok (r, g)
    → (facts : Scope) × Permitted c facts h
execute_mutation-authorised v c m h g r done = elim (Bool-cases (authorised c h)) [
  | inl held ↦ authorised-Permitted c h held
  | inr missing ↦
      let refused = (execute_mutation-Blocked v c m).at h missing in
      absurd (ground (arith, done, refused))
]
