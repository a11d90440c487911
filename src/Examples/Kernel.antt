-- ===== src/Examples/Kernel.antt =====
-- Runs of the kernel's mutations.
use codex_post_office.Base.{
  ℕ, ◌+◌, ◌≡◌, refl, true, false, none, some, [], ◌∷◌, Result, ok, err, is_ok,
}
use codex_post_office.Kernel.Documents.{plan_state, payload_document, sorted}
use codex_post_office.Hub.{
  ProjectStatus, Mailbox, Classification, Grant, GrantStatus, Scope, Status, Hub, Task, TaskState,
}
use codex_post_office.Kernel.Events.Chain.{event_is_valid, start, validate_hub_event_chain}
use codex_post_office.Kernel.Events.Growth.{IsHistory}
use codex_post_office.Kernel.Authority.Call.{Call, authenticate}
use codex_post_office.Kernel.Authority.Finalize.{Response}
use codex_post_office.Kernel.Mutations.Execute
use codex_post_office.Kernel.Mutations.Execute.{Mutation, Environment, execute_mutation}
use codex_post_office.Kernel.Operation.{
  Store, Mode, Invocation, open_writer, kernel_ready, answer, first_time, execute_operation,
}
use codex_post_office.Kernel.Replay.{execute_operation-replays}
use codex_post_office.Kernel.Mutations.SingleUse.{execute_mutation-spends}
use codex_post_office.Kernel.Authority.Permitted.{Permitted}
use codex_post_office.Kernel.Authority.Permits.{prepare_mutation_authority-Permitted}
use codex_post_office.Kernel.Mutations.Guarded.{execute_mutation-authorised}
use codex_post_office.Kernel.Mutations.Tasks
use codex_post_office.Kernel.Mutations.Tasks.{Change, task_change}
use codex_post_office.Kernel.Mutations.Projects.{
  ProjectOperation, change, domains_referenced, replace_domains, project_change, project_mutation,
}
use codex_post_office.Kernel.Mutations.Domains.{IsInUse, by_mailbox, project_mutation-referenced}
use mathlib.Core.List.Memᴰ.{head}
use codex_post_office.Kernel.Mutations.LogGrows.{execute_mutation-IsHistory}
use codex_post_office.Kernel.Transaction.{◌>>=◌}
use codex_post_office.Kernel.Mutations.Plans.{plan_mutation, plannable, project_plannable}
use codex_post_office.Kernel.Authority.Basis.{
  authority_grant, prepare_mutation_authority, prepare_action, prepare_grant,
}
use codex_post_office.Kernel.Authority.Scopes.{scope_allows}
use codex_post_office.Kernel.Authority.Finalize.{
  finalize_mutation, consume_action, consume_grant_authority,
}
use codex_post_office.Kernel.Events.Append.{
  event_body, append_hub_event, append_event, insertable, new_event,
}
use codex_post_office.Kernel.Events.Query.{aggregate_root, position_of, aggregate_matches}
use codex_post_office.Examples.Data.{
  digest, author_hub, capability, request, call, project_plan, hub_of, value_of, no_response,
}

abbrev environment : Environment
environment = record {
  sha256_json = digest;
  response_id = λ task message. task;
  actor_name = λ id. id;
  implemented = "project.planCreate" ∷ [];
  sort_names = λ names. names;
  rehome_id = λ root. root + 1;
  context_bundle_id = λ root. root + 2;
  names_secret = λ reference. false;
}

no_events : IsHistory digest []
unfolding validate_hub_event_chain
no_events = record { state = start; valid = refl; starts = λ k i n. absurd (n refl) }

abbrev no_change : Change
no_change = record { event_result = []; link = λ event h. h }

abbrev plan_call : Call
plan_call = call (request "project.planCreate" "ProvisioningPlan" 10)

planned_hub : Hub
unfolding execute_mutation plan_mutation
planned_hub =
    hub_of (execute_mutation environment plan_call (Execute.plan_create project_plan) author_hub)

planned : Response
unfolding execute_mutation plan_mutation
planned =
    value_of no_response
      (execute_mutation environment plan_call (Execute.plan_create project_plan) author_hub)

run :
    execute_mutation environment plan_call (Execute.plan_create project_plan) author_hub
    ≡ ok (planned, planned_hub)
unfolding planned planned_hub execute_mutation plan_mutation ◌>>=◌ plannable
    prepare_mutation_authority prepare_action finalize_mutation append_hub_event append_event
    insertable new_event aggregate_matches consume_action consume_grant_authority project_plannable
run = refl

execute_mutation-IsHistory_example : IsHistory digest planned_hub.events
execute_mutation-IsHistory_example =
    execute_mutation-IsHistory environment plan_call (Execute.plan_create project_plan) author_hub
      planned_hub planned no_events run

execute_mutation-authorised_example : (facts : Scope) × Permitted plan_call facts author_hub
execute_mutation-authorised_example =
    execute_mutation-authorised environment plan_call (Execute.plan_create project_plan) author_hub
      planned_hub planned run

-- a grant of the author's, for one mail domain
abbrev granted_call : Call
granted_call = call (record (request "message.close" "SemanticMessage" 50) {
  authority_grant_id = some 8;
  exact_author_action_id = none;
})

abbrev granted_facts : Scope
granted_facts = record {
  project_ids = 20 ∷ [];
  task_ids = [];
  package_ids = [];
  scope_domains = 31 ∷ 30 ∷ [];
}

abbrev granted : Grant
granted = record {
  grant_id = 8;
  grantor_actor_id = 1;
  recipient_actor_id = 1;
  allowed_operations = "message.route" ∷ "message.close" ∷ [];
  scope = record { project_ids = []; task_ids = []; package_ids = []; scope_domains = 30 ∷ [] };
  classification = Classification.standing;
  maximum_uses = some 3;
  remaining_uses = some 1;
  status = GrantStatus.active;
  rationale = 9;
  source_author_action_id = none;
  expires_at = some 200;
  created_event_id = none;
  revoked_event_id = none;
}

abbrev granted_hub : Hub
granted_hub = record author_hub { grants = granted ∷ [] }

run_prepare :
    prepare_mutation_authority granted_call granted_facts granted_hub
    ≡ ok (authority_grant 8 granted, granted_hub)
unfolding prepare_mutation_authority prepare_grant ◌>>=◌ scope_allows
run_prepare = refl

prepare_mutation_authority-Permitted_example : Permitted granted_call granted_facts granted_hub
prepare_mutation_authority-Permitted_example =
    prepare_mutation_authority-Permitted granted_call granted_facts granted_hub granted_hub
      (authority_grant 8 granted) run_prepare

-- a later request of the author's, which names the same action
abbrev second_call : Call
second_call = call (request "project.planCreate" "ProvisioningPlan" 11)

execute_mutation-spends_example :
    is_ok (execute_mutation environment second_call (Execute.plan_create project_plan) planned_hub)
    ≡ false
execute_mutation-spends_example =
    execute_mutation-spends environment plan_call second_call (Execute.plan_create project_plan)
      (Execute.plan_create project_plan) 5 author_hub planned_hub planned refl refl run

abbrev store : Store
store = record {
  is_operational = true;
  transfers = [];
  hub = author_hub;
  retained = [];
  instance_row = some (record { is_ready = true; mode = Mode.isolated; contract_root = 9 });
}

abbrev sha256_bytes : ℕ → ℕ
sha256_bytes n = n + 1

abbrev invocation : ℕ → Invocation
invocation instant = record {
  request = request "project.planCreate" "ProvisioningPlan" 10;
  credential = record { capability_id = 2; secret = 2 };
  authenticated_at = instant;
  recorded_at = instant;
  checked_at = instant;
  fresh = λ n. 1000 + n;
}

abbrev store_of : Result (Response × Store) → Store
store_of (ok (r, s)) = s
store_of (err e) = store

abbrev response_of : Result (Response × Store) → Response
response_of (ok (r, s)) = r
response_of (err e) = no_response

executed : Result (Response × Store)
executed =
    execute_operation environment sha256_bytes 9 (invocation 100) (Execute.plan_create project_plan)
      store

run_operation :
    execute_operation environment sha256_bytes 9
      (invocation 100)
      (Execute.plan_create project_plan)
      store
    ≡ ok (response_of executed, store_of executed)
unfolding executed execute_operation open_writer kernel_ready authenticate answer first_time
    execute_mutation plan_mutation ◌>>=◌ plannable prepare_mutation_authority prepare_action
    finalize_mutation append_hub_event append_event insertable new_event aggregate_matches
    consume_action consume_grant_authority project_plannable
run_operation = refl

opened : open_writer digest (store_of executed) ≡ ok tt
unfolding executed execute_operation open_writer kernel_ready authenticate answer first_time
    execute_mutation plan_mutation ◌>>=◌ plannable prepare_mutation_authority prepare_action
    finalize_mutation append_hub_event append_event insertable new_event aggregate_matches
    consume_action consume_grant_authority project_plannable event_is_valid digest event_body
    aggregate_root plan_state payload_document sorted position_of
opened = refl

authenticated :
    authenticate sha256_bytes
      (invocation 150).request
      (invocation 150).credential
      150
      (store_of executed).hub
    ≡ ok capability
unfolding executed execute_operation open_writer kernel_ready authenticate answer first_time
    execute_mutation plan_mutation ◌>>=◌ plannable prepare_mutation_authority prepare_action
    finalize_mutation append_hub_event append_event insertable new_event aggregate_matches
    consume_action consume_grant_authority project_plannable
authenticated = refl

execute_operation-replays_example :
    execute_operation environment sha256_bytes 9
      (invocation 150)
      (Execute.revoke 1 2)
      (store_of executed)
    ≡ ok (response_of executed, store_of executed)
execute_operation-replays_example =
    execute_operation-replays environment sha256_bytes 9 (invocation 100) (invocation 150)
      (Execute.plan_create project_plan) (Execute.revoke 1 2) store (store_of executed)
      (response_of executed) capability run_operation refl opened authenticated

abbrev task : Task
task = record {
  task_id = 60;
  project_id = 20;
  task_kind = "GENERAL";
  objective = 61;
  mutable_package_id = none;
  acceptance_contract_root = 62;
  authority_grant_id = 63;
  state = TaskState.active;
  aggregate_version = 1;
  aggregate_root = 64;
  created_event_id = none;
}

abbrev task_hub : Hub
task_hub = record author_hub { tasks = task ∷ [] }

blocked : Result (Change × Hub)
blocked = task_change environment.response_id plan_call task (Tasks.block 70) task_hub

-- a project with two mail domains
abbrev project_hub : Hub
project_hub = record author_hub {
  projects =
      record {
        project_id = 20;
        code = 21;
        display_name = 22;
        kind = 23;
        status = ProjectStatus.active;
        local_project_root = 24;
        local_cas_root = 25;
        local_backup_root = 26;
        policy_root = none;
        aggregate_version = 1;
        aggregate_root = 0;
        created_event_id = none;
      }
      ∷ [];
  mail_domains =
      record { project_id = 20; mail_domain = 30 }
      ∷ record { project_id = 20; mail_domain = 31 }
      ∷ [];
}

abbrev first_mailbox : Mailbox
first_mailbox = record {
  mailbox_id = 53;
  generation = 1;
  mail_domain = 30;
  endpoint_id = 71;
  status = Status.active;
  created_event_id = none;
}

-- the same, with a mailbox in one of them
abbrev domain_hub : Hub
domain_hub = record project_hub { mailboxes = first_mailbox ∷ [] }

abbrev update_call : Call
update_call = call (request "project.update" "Project" 20)

abbrev keep_domains : ProjectOperation
keep_domains =
    change (record { display_name = none; policy_root = none; domains = some (30 ∷ 31 ∷ []) })

-- Without the mailbox the update is carried out.
run_update : is_ok (project_mutation digest update_call 20 keep_domains project_hub) ≡ true
unfolding project_mutation project_change replace_domains domains_referenced ◌>>=◌
    prepare_mutation_authority prepare_action finalize_mutation append_hub_event append_event
    insertable new_event aggregate_matches consume_action consume_grant_authority position_of
run_update = refl

in_use : IsInUse 20 domain_hub
in_use =
    by_mailbox (record { project_id = 20; mail_domain = 30 }) first_mailbox (head refl) refl
      (head refl) refl

project_mutation-referenced_example :
    is_ok (project_mutation digest update_call 20 keep_domains domain_hub) ≡ false
project_mutation-referenced_example =
    project_mutation-referenced digest update_call 20 none none (30 ∷ 31 ∷ []) domain_hub in_use
