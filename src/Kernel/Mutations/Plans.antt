-- ===== src/Kernel/Mutations/Plans.antt =====
-- project.planCreate, task.planCreate, project.create and task.create.
use codex_post_office.Base.{
  ℕ, ◌+◌, String, Bool, true, false, not, ◌&&◌, ◌||◌, Option, none, some, List, [], ◌∷◌, ◌++◌, map,
  Json, num, arr, obj, fields, str, any, update, length, ◌==◌, str_eq, if◌then◌else◌, ok, raised,
  integrity_error, Code, null, is_some, contains, intersects, all_distinct,
}
use codex_post_office.Hub.{
  Hub, Project, ProjectStatus, MailDomain, Plan, PlanStage, Payload, ProjectPayload, TaskPayload,
  project_payload, task_payload, Task, TaskState, SoftwarePackage, Scope, is_active_project,
  is_active_grant,
}
use codex_post_office.Kernel.Transaction.{Tx, require, reading, row, modify, pure, ◌>>=◌, ◌>>◌}
use codex_post_office.Kernel.Documents.{
  project_state, task_state, plan_state, payload_document, sorted,
}
use codex_post_office.Kernel.Events.Query.{aggregate_root, aggregate_position}
use codex_post_office.Kernel.Events.Append.{append_hub_event}
use codex_post_office.Kernel.Authority.Call.{Call}
use codex_post_office.Kernel.Authority.Basis.{prepare_mutation_authority, grant_of}
use codex_post_office.Kernel.Authority.Finalize.{Response, finalize_mutation}
use codex_post_office.Kernel.Mutations.Common.{
  project_of, task_of, package_of, plan_of, holds, require_aggregate,
}

abbrev pub target_type : Payload → String
target_type (project_payload _) = "Project"
target_type (task_payload _) = "Task"

abbrev pub target_id : Payload → ℕ
target_id (project_payload p) = p.project_id
target_id (task_payload p) = p.task_id

-- The tests of project.planCreate.
unfoldable pub project_plannable : ProjectPayload → Tx (Unit {0})
project_plannable p = do
  require
      (λ h. not (
        any (λ (o : Project). o.project_id == p.project_id || o.code == p.project_code) h.projects))
      (raised Code.concurrency_conflict)
  require (λ _. all_distinct p.domains) (raised Code.input_invalid)
  require (λ h. not (any (λ (d : MailDomain). contains d.mail_domain p.domains) h.mail_domains))
      (raised Code.concurrency_conflict)

abbrev kind_agrees : String → List ℕ → Bool
kind_agrees kind mutable_ids =
    if str_eq kind "PACKAGE_DEVELOPMENT" then length mutable_ids == 1 else length mutable_ids == 0

abbrev first_package_owned : Hub → ℕ → List ℕ → Bool
first_package_owned h project_id [] = true
first_package_owned h project_id (id ∷ _) =
    holds (λ (p : SoftwarePackage). p.owning_project_id == project_id) (package_of h id)

-- The tests of task.planCreate.
unfoldable pub task_plannable : TaskPayload → Tx (Unit {0})
task_plannable p = do
  require (λ h. holds (λ o. is_active_project o.status) (project_of h p.project_id))
      (raised Code.input_invalid)
  require (λ h. not (is_some (task_of h p.task_id))) (raised Code.concurrency_conflict)
  require (λ _. kind_agrees p.task_kind p.mutable_package_ids) (raised Code.input_invalid)
  require (λ h. first_package_owned h p.project_id p.mutable_package_ids)
      (raised Code.input_invalid)
  g ← row (λ h. grant_of h p.authority_grant_id) (raised Code.input_invalid)
  require (λ _. is_active_grant g.status) (raised Code.input_invalid)
  require
      (λ _.
        contains p.project_id g.scope.project_ids
        || intersects p.mutable_package_ids g.scope.package_ids)
      (raised Code.input_invalid)

unfoldable pub plannable : Payload → Tx (Unit {0})
unfolding project_plannable task_plannable
plannable (project_payload p) = project_plannable p
plannable (task_payload p) = task_plannable p

-- `requested_resources`: the kind of a resource and its identifier
resource : String → ℕ → Json
resource kind id = arr (str kind ∷ num id ∷ [])

requested_resources : Payload → Json
unfolding resource
requested_resources (project_payload p) =
    arr (resource "project" p.project_id ∷ map (resource "mail-domain") (sorted p.domains))
requested_resources (task_payload p) =
    arr (resource "task" p.task_id ∷ map (resource "package") p.mutable_package_ids)

abbrev pub plan_facts : Payload → Scope
plan_facts (project_payload p) = record {
  project_ids = [];
  task_ids = [];
  package_ids = [];
  scope_domains = [];
}
plan_facts (task_payload p) = record {
  project_ids = p.project_id ∷ [];
  task_ids = [];
  package_ids = p.mutable_package_ids;
  scope_domains = [];
}

-- `authorityGrantId or exactAuthorActionId`
abbrev authority_id : Option ℕ → Option ℕ → ℕ
authority_id (some g) a = g
authority_id none (some a) = a
authority_id none none = 0

plan_document : Payload → Json
unfolding requested_resources
plan_document p = obj (
    ("aggregateType", str (target_type p))
    ∷ ("aggregateId", num (target_id p))
    ∷ ("payload", payload_document p)
    ∷ ("requestedResources", requested_resources p)
    ∷ [])

abbrev is_planned : PlanStage → Bool
is_planned PlanStage.plan = true
is_planned _ = false

abbrev pub is_plan : ℕ → Plan → Bool
is_plan id p = p.plan_id == id

-- The scope facts of project.create and task.create.
abbrev pub creation_facts : Payload → Scope
creation_facts (project_payload p) = record {
  project_ids = p.project_id ∷ [];
  task_ids = [];
  package_ids = [];
  scope_domains = [];
}
creation_facts (task_payload p) = record {
  project_ids = p.project_id ∷ [];
  task_ids = p.task_id ∷ [];
  package_ids = p.mutable_package_ids;
  scope_domains = [];
}

abbrev first_of : List ℕ → Option ℕ
first_of [] = none
first_of (a ∷ _) = some a

created_project : ProjectPayload → Project
created_project p = record {
  project_id = p.project_id;
  code = p.project_code;
  display_name = p.display_name;
  kind = p.kind;
  status = ProjectStatus.active;
  local_project_root = p.local_project_root;
  local_cas_root = p.local_cas_root;
  local_backup_root = p.local_backup_root;
  policy_root = p.policy_root;
  aggregate_version = 1;
  aggregate_root = 0;
  created_event_id = none;
}

created_task : TaskPayload → Task
created_task p = record {
  task_id = p.task_id;
  project_id = p.project_id;
  task_kind = p.task_kind;
  objective = p.objective;
  mutable_package_id = first_of p.mutable_package_ids;
  acceptance_contract_root = p.acceptance_contract_root;
  authority_grant_id = p.authority_grant_id;
  state = TaskState.provisioning;
  aggregate_version = 1;
  aggregate_root = 0;
  created_event_id = none;
}

abbrev domain_rows : ℕ → List ℕ → List MailDomain
domain_rows project_id [] = []
domain_rows project_id (d ∷ ds) =
    record { project_id = project_id; mail_domain = d } ∷ domain_rows project_id ds

-- The INSERTs, with the UNIQUE constraints of the tables, and the new state document.
unfoldable pub insert_target : Payload → Tx Json
unfolding created_project created_task
insert_target (project_payload p) = do
  require
      (λ h.
        not (
          any (λ (o : Project). o.project_id == p.project_id || o.code == p.project_code)
            h.projects)
        && not (any (λ (d : MailDomain). contains d.mail_domain p.domains) h.mail_domains))
      integrity_error
  modify λ h. record h {
    projects = h.projects ++ created_project p ∷ [];
    mail_domains = h.mail_domains ++ domain_rows p.project_id (sorted p.domains);
  }
  reading (λ h. ok (project_state h (created_project p)))
insert_target (task_payload p) = do
  require (λ h. not (is_some (task_of h p.task_id))) integrity_error
  modify (λ h. record h { tasks = h.tasks ++ created_task p ∷ [] })
  reading (λ h. ok (task_state h (created_task p)))

-- `UPDATE … SET aggregate_root=?` and the event link of the new row
abbrev pub set_target_root : Payload → ℕ → Hub → Hub
set_target_root (project_payload p) root h = record h {
  projects =
      update (λ (o : Project). o.project_id == p.project_id)
        (λ o. record o { aggregate_root = root }) h.projects;
}
set_target_root (task_payload p) root h = record h {
  tasks =
      update (λ (o : Task). o.task_id == p.task_id) (λ o. record o { aggregate_root = root })
        h.tasks;
}

abbrev pub link_target : Payload → ℕ → Hub → Hub
link_target (project_payload p) event h = record h {
  projects =
      update (λ (o : Project). o.project_id == p.project_id)
        (λ o. record o { created_event_id = some event }) h.projects;
}
link_target (task_payload p) event h = record h {
  tasks =
      update (λ (o : Task). o.task_id == p.task_id)
        (λ o. record o { created_event_id = some event }) h.tasks;
}

abbrev created_state : Payload → String
created_state (project_payload _) = "ACTIVE"
created_state (task_payload _) = "PROVISIONING"

module _ (sha256_json : Json → ℕ) where
  abbrev plan_aggregate_root : ℕ → Json → ℕ
  plan_aggregate_root id detail = aggregate_root sha256_json "ProvisioningPlan" id detail

  draft : Call → Payload → Plan
  unfolding plan_document
  draft c p = record {
    plan_id = c.request.aggregate_id;
    aggregate_type = target_type p;
    aggregate_id = target_id p;
    authority_id = authority_id c.request.authority_grant_id c.request.exact_author_action_id;
    requested_resources = requested_resources p;
    payload = p;
    plan_root = sha256_json (plan_document p);
    stage = PlanStage.plan;
    aggregate_version = 1;
    aggregate_root = 0;
    created_event_id = none;
    committed_event_id = none;
  }

  -- project.planCreate and task.planCreate
  unfoldable pub plan_mutation : Call → Payload → Tx Response
  unfolding draft
  plan_mutation c p = do
    let id = c.request.aggregate_id
    require (λ h. not (is_some (plan_of h id))) (raised Code.concurrency_conflict)
    require_aggregate c.request "ProvisioningPlan" id 0 (plan_aggregate_root id null)
    require
        (λ h. not (
          any
            (λ (o : Plan). str_eq o.aggregate_type (target_type p) && o.aggregate_id == target_id p)
            h.plans))
        (raised Code.concurrency_conflict)
    plannable p
    basis ← prepare_mutation_authority c (plan_facts p)
    let after_root = plan_aggregate_root id (plan_state (draft c p))
    require (λ h. not (any (λ (o : Plan). o.plan_root == sha256_json (plan_document p)) h.plans))
        integrity_error
    modify
        λ h. record h { plans = h.plans ++ record (draft c p) { aggregate_root = after_root } ∷ [] }
    finalize_mutation sha256_json c basis (record {
      before_root = plan_aggregate_root id null;
      after_root = after_root;
      aggregate_version = 1;
      created_ids = id ∷ [];
      event_result = ("state", str "PLAN") ∷ ("targetId", num (target_id p)) ∷ [];
      link = λ event h. record h {
        plans = update (is_plan id) (λ o. record o { created_event_id = some event }) h.plans;
      };
    })

  abbrev pub commit_draw : ℕ
  commit_draw = 3

  -- The plan's own transition, after its target has been created.
  unfoldable pub commit_plan : Call → Plan → ℕ → Tx ℕ
  commit_plan c plan event = do
    let before_root = plan_aggregate_root plan.plan_id (plan_state plan)
    version ← aggregate_position "ProvisioningPlan" plan.plan_id before_root
    modify λ h. record h {
      plans =
          update (is_plan plan.plan_id)
            (λ o. record o {
              stage = PlanStage.committed;
              aggregate_version = version + 1;
              committed_event_id = some event;
            })
            h.plans;
    }
    committed ← row (λ h. plan_of h plan.plan_id) (raised Code.internal_error)
    let after_root = plan_aggregate_root plan.plan_id (plan_state committed)
    modify λ h. record h {
      plans = update (is_plan plan.plan_id) (λ o. record o { aggregate_root = after_root }) h.plans;
    }
    append_hub_event sha256_json (record {
      request = c.request;
      capability_id = c.capability.capability_id;
      aggregate_type = "ProvisioningPlan";
      aggregate_id = plan.plan_id;
      aggregate_version = version + 1;
      before_root = before_root;
      after_root = after_root;
      event_result = fields (("state", str "COMMITTED") ∷ ("targetEventId", num event) ∷ []);
      occurred_at = c.recorded_at;
      event_id = c.fresh commit_draw;
    })

  -- project.create and task.create, from the approved plan
  unfoldable pub create_mutation : Call → String → ℕ → ℕ → Tx Response
  create_mutation c expected_type plan_id plan_root = do
    let id = c.request.aggregate_id
    plan ← row (λ h. plan_of h plan_id) (raised Code.input_invalid)
    require (λ _. is_planned plan.stage) (raised Code.input_invalid)
    require (λ _. plan_root == plan.plan_root) (raised Code.concurrency_conflict)
    require (λ _. str_eq plan.aggregate_type expected_type && id == plan.aggregate_id)
        (raised Code.concurrency_conflict)
    let before_root = aggregate_root sha256_json expected_type id null
    require_aggregate c.request expected_type id 0 before_root
    basis ← prepare_mutation_authority c (creation_facts plan.payload)
    detail ← insert_target plan.payload
    let after_root = aggregate_root sha256_json expected_type id detail
    modify (set_target_root plan.payload after_root)
    response ← finalize_mutation sha256_json c basis (record {
      before_root = before_root;
      after_root = after_root;
      aggregate_version = 1;
      created_ids = id ∷ [];
      event_result =
          ("state", str (created_state plan.payload))
          ∷ ("provisioningPlanId", num plan.plan_id)
          ∷ [];
      link = link_target plan.payload;
    })
    commit_plan c plan response.event_id
    pure response
