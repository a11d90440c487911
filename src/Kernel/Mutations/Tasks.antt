-- ===== src/Kernel/Mutations/Tasks.antt =====
-- The task operations: task.bindEndpoint, task.activate, task.block, task.moveProject,
-- task.recordResponse, task.review and task.close.
use codex_post_office.Base.{
  ℕ, ◌+◌, String, Bool, true, false, not, ◌&&◌, ◌||◌, Option, none, some, List, [], ◌∷◌, ◌++◌, Json,
  num, str, any, update, leb, ◌==◌, if◌then◌else◌, ok, raised, integrity_error, Code, same_option,
}
use codex_post_office.Hub.{
  Hub, Task, TaskState, TaskResponse, TaskReview, Binding, SoftwarePackage, Endpoint, Mailbox,
  Scope, is_active, is_active_project, task_state_text,
}
use codex_post_office.Kernel.Transaction.{Tx, require, reading, row, modify, pure, ◌>>=◌, ◌>>◌}
use codex_post_office.Kernel.Documents.{task_state}
use codex_post_office.Kernel.Events.Query.{aggregate_root, aggregate_position}
use codex_post_office.Kernel.Authority.Call.{Call}
use codex_post_office.Kernel.Authority.Basis.{prepare_mutation_authority}
use codex_post_office.Kernel.Authority.Finalize.{Response, finalize_mutation}
use codex_post_office.Kernel.Mutations.Common.{
  task_of, project_of, package_of, endpoint_of, holds, singleton, require_aggregate,
}

-- The operation with its parameters.
pub data TaskOperation : Type 0 where
  bind_endpoint : ℕ → ℕ → TaskOperation
  activate : TaskOperation
  block : ℕ → TaskOperation
  move_project : ℕ → ℕ → TaskOperation
  record_response : ℕ → List ℕ → TaskOperation
  review : TaskState → ℕ → TaskOperation
  close : ℕ → TaskOperation

-- The states from which each operation starts.
abbrev pub awaits_binding : TaskState → Bool
awaits_binding TaskState.provisioning = true
awaits_binding TaskState.blocked = true
awaits_binding _ = false

abbrev pub activatable : TaskState → Bool
activatable TaskState.ready = true
activatable TaskState.blocked = true
activatable TaskState.correction_required = true
activatable _ = false

abbrev pub blockable : TaskState → Bool
blockable TaskState.provisioning = true
blockable TaskState.ready = true
blockable TaskState.active = true
blockable TaskState.correction_required = true
blockable _ = false

abbrev pub movable : TaskState → Bool
movable TaskState.provisioning = true
movable TaskState.ready = true
movable TaskState.blocked = true
movable _ = false

abbrev pub awaits_response : TaskState → Bool
awaits_response TaskState.active = true
awaits_response TaskState.blocked = true
awaits_response _ = false

abbrev pub is_returned : TaskState → Bool
is_returned TaskState.response_returned = true
is_returned _ = false

abbrev pub is_decided : TaskState → Bool
is_decided TaskState.accepted = true
is_decided TaskState.rejected = true
is_decided TaskState.cancelled = true
is_decided _ = false

-- the CHECK constraint of `task_reviews.decision`
abbrev pub is_decision : TaskState → Bool
is_decision TaskState.accepted = true
is_decision TaskState.correction_required = true
is_decision TaskState.rejected = true
is_decision _ = false

-- `event_result`, and the update that `link` stands for
pub record Change : Type 0 where
  pub event_result : List (String × Json)
  pub link : ℕ → Hub → Hub

abbrev pub no_link : ℕ → Hub → Hub
no_link event h = h

abbrev conflict : Bool → Tx (Unit {0})
conflict b = require (λ _. b) (raised Code.concurrency_conflict)

abbrev pub is_task : ℕ → Task → Bool
is_task id t = t.task_id == id

-- `UPDATE tasks SET state=? WHERE task_id=?`
abbrev pub set_state : ℕ → TaskState → Tx (Unit {0})
set_state id s =
    modify λ h. record h { tasks = update (is_task id) (λ t. record t { state = s }) h.tasks }

-- `WHERE endpoint_id=? AND generation=? AND status='ACTIVE' ORDER BY mailbox_id LIMIT 1`
abbrev lower : Option Mailbox → Mailbox → Option Mailbox
lower none m = some m
lower (some best) m = if leb best.mailbox_id m.mailbox_id then some best else some m

abbrev serves : ℕ → ℕ → Mailbox → Bool
serves endpoint_id generation m =
    m.endpoint_id == endpoint_id && m.generation == generation && is_active m.status

abbrev first_mailbox : ℕ → ℕ → Option Mailbox → List Mailbox → Option Mailbox
first_mailbox e g best [] = best
first_mailbox e g best (m ∷ ms) = first_mailbox e g (if serves e g m then lower best m else best) ms

abbrev pub is_bound : ℕ → Binding → Bool
is_bound task_id b = b.task_id == task_id

abbrev new_binding : ℕ → Endpoint → Mailbox → Binding
new_binding task_id e m = record {
  task_id = task_id;
  endpoint_id = e.endpoint_id;
  mailbox_id = m.mailbox_id;
  mailbox_generation = m.generation;
  bound_event_id = none;
}

-- task.bindEndpoint
unfoldable pub bind_change : Call → Task → ℕ → ℕ → Tx Change
bind_change c t endpoint_id generation = do
  conflict (awaits_binding t.state)
  e ← row (λ h. endpoint_of h endpoint_id) (raised Code.input_invalid)
  require
      (λ _.
        is_active e.status
        && same_option e.task_id (some t.task_id)
        && e.project_id == t.project_id)
      (raised Code.input_invalid)
  m ← row (λ h. first_mailbox e.endpoint_id generation none h.mailboxes) (raised Code.input_invalid)
  require
      (λ h. not (
        any (λ (b : Binding). b.task_id == t.task_id || b.endpoint_id == e.endpoint_id) h.bindings))
      (raised Code.concurrency_conflict)
  modify (λ h. record h { bindings = h.bindings ++ new_binding t.task_id e m ∷ [] })
  set_state t.task_id TaskState.ready
  pure (record {
    event_result =
        ("state", str "READY")
        ∷ ("endpointId", num e.endpoint_id)
        ∷ ("mailboxId", num m.mailbox_id)
        ∷ ("mailboxGeneration", num m.generation)
        ∷ [];
    link = λ event h. record h {
      bindings =
          update (is_bound t.task_id) (λ b. record b { bound_event_id = some event }) h.bindings;
    };
  })

-- task.activate
unfoldable pub activate_change : Call → Task → Tx Change
activate_change c t = do
  conflict (activatable t.state)
  require (λ h. any (is_bound t.task_id) h.bindings) (raised Code.input_invalid)
  set_state t.task_id TaskState.active
  pure (record { event_result = ("state", str "ACTIVE") ∷ []; link = no_link })

-- task.block
unfoldable pub block_change : Call → Task → ℕ → Tx Change
block_change c t reason = do
  conflict (blockable t.state)
  set_state t.task_id TaskState.blocked
  pure (record {
    event_result = ("state", str "BLOCKED") ∷ ("reason", num reason) ∷ [];
    link = no_link;
  })

abbrev package_agrees : Hub → Option ℕ → ℕ → Bool
package_agrees h none project_id = true
package_agrees h (some package_id) project_id =
    holds (λ (p : SoftwarePackage). p.owning_project_id == project_id) (package_of h package_id)

-- task.moveProject
unfoldable pub move_change : Call → Task → ℕ → ℕ → Tx Change
move_change c t destination_id reason = do
  conflict (movable t.state)
  require (λ h. not (any (is_bound t.task_id) h.bindings)) (raised Code.concurrency_conflict)
  destination ← row (λ h. project_of h destination_id) (raised Code.input_invalid)
  require (λ _. is_active_project destination.status) (raised Code.input_invalid)
  require (λ h. package_agrees h t.mutable_package_id destination.project_id)
      (raised Code.input_invalid)
  modify λ h. record h {
    tasks =
        update (is_task t.task_id) (λ o. record o { project_id = destination.project_id }) h.tasks;
  }
  pure (record {
    event_result =
        ("state", str (task_state_text t.state))
        ∷ ("fromProjectId", num t.project_id)
        ∷ ("toProjectId", num destination.project_id)
        ∷ ("reason", num reason)
        ∷ [];
    link = no_link;
  })

-- task.recordResponse: `response_id` is derived from the task and the message, and the table
-- refuses a second response of the task to the same message.
unfoldable pub response_change : (ℕ → ℕ → ℕ) → Call → Task → ℕ → List ℕ → Tx Change
response_change response_id c t message_id evidence = do
  conflict (awaits_response t.state)
  require
      (λ h. not (
        any
          (λ (r : TaskResponse).
            r.response_id == response_id t.task_id message_id
            || (r.task_id == t.task_id && r.message_id == message_id))
          h.responses))
      integrity_error
  modify λ h. record h {
    responses =
        h.responses
        ++ record {
          response_id = response_id t.task_id message_id;
          task_id = t.task_id;
          message_id = message_id;
          evidence_roots = evidence;
          recorded_event_id = none;
        }
          ∷ [];
  }
  set_state t.task_id TaskState.response_returned
  pure (record {
    event_result =
        ("state", str "RESPONSE_RETURNED")
        ∷ ("responseId", num (response_id t.task_id message_id))
        ∷ ("messageId", num message_id)
        ∷ [];
    link = λ event h. record h {
      responses =
          update (λ (r : TaskResponse). r.response_id == response_id t.task_id message_id)
            (λ r. record r { recorded_event_id = some event }) h.responses;
    };
  })

abbrev pub review_draw : ℕ
review_draw = 3

-- task.review
unfoldable pub review_change : Call → Task → TaskState → ℕ → Tx Change
review_change c t decision rationale = do
  conflict (is_returned t.state)
  require (λ _. is_decision decision) integrity_error
  require (λ h. not (any (λ (r : TaskReview). r.review_id == c.fresh review_draw) h.reviews))
      integrity_error
  modify λ h. record h {
    reviews =
        h.reviews
        ++ record {
          review_id = c.fresh review_draw;
          task_id = t.task_id;
          decision = decision;
          rationale = rationale;
          recorded_event_id = none;
        }
          ∷ [];
  }
  set_state t.task_id decision
  pure (record {
    event_result =
        ("state", str (task_state_text decision))
        ∷ ("reviewId", num (c.fresh review_draw))
        ∷ ("rationale", num rationale)
        ∷ [];
    link = λ event h. record h {
      reviews =
          update (λ (r : TaskReview). r.review_id == c.fresh review_draw)
            (λ r. record r { recorded_event_id = some event }) h.reviews;
    };
  })

-- task.close
unfoldable pub close_change : Call → Task → ℕ → Tx Change
close_change c t summary = do
  conflict (is_decided t.state)
  set_state t.task_id TaskState.closed
  pure (record {
    event_result = ("state", str "CLOSED") ∷ ("summary", num summary) ∷ [];
    link = no_link;
  })

unfoldable pub task_change : (ℕ → ℕ → ℕ) → Call → Task → TaskOperation → Tx Change
task_change response_id c t (bind_endpoint e g) = bind_change c t e g
task_change response_id c t activate = activate_change c t
task_change response_id c t (block reason) = block_change c t reason
task_change response_id c t (move_project p reason) = move_change c t p reason
task_change response_id c t (record_response m es) = response_change response_id c t m es
task_change response_id c t (review d rationale) = review_change c t d rationale
task_change response_id c t (close summary) = close_change c t summary

abbrev pub task_facts : Task → Scope
task_facts t = record {
  project_ids = t.project_id ∷ [];
  task_ids = t.task_id ∷ [];
  package_ids = singleton t.mutable_package_id;
  scope_domains = [];
}

module _ (sha256_json : Json → ℕ) (response_id : ℕ → ℕ → ℕ) where
  abbrev task_root : ℕ → Json → ℕ
  task_root id detail = aggregate_root sha256_json "Task" id detail

  -- The handler of the seven operations.
  unfoldable pub task_mutation : Call → ℕ → TaskOperation → Tx Response
  task_mutation c task_id op = do
    t ← row (λ h. task_of h task_id) (raised Code.input_invalid)
    before_root ← reading (λ h. ok (task_root task_id (task_state h t)))
    version ← aggregate_position "Task" task_id before_root
    require_aggregate c.request "Task" task_id version before_root
    basis ← prepare_mutation_authority c (task_facts t)
    change ← task_change response_id c t op
    updated ← row (λ h. task_of h task_id) (raised Code.internal_error)
    after_root ← reading (λ h. ok (task_root task_id (task_state h updated)))
    modify λ h. record h {
      tasks =
          update (is_task task_id)
            (λ o. record o { aggregate_version = version + 1; aggregate_root = after_root })
            h.tasks;
    }
    finalize_mutation sha256_json c basis (record {
      before_root = before_root;
      after_root = after_root;
      aggregate_version = version + 1;
      created_ids = [];
      event_result = change.event_result;
      link = change.link;
    })
