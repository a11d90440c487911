-- ===== src/Kernel/Mutations/Endpoints.antt =====
-- endpoint.allocate and endpoint.revoke.
use codex_post_office.Base.{
  ℕ, ◌+◌, String, Bool, true, false, not, ◌&&◌, Option, none, some, List, [], ◌∷◌, ◌++◌, map, Json,
  num, nums, arr, obj, opt, fields, str, any, update, select, ◌==◌, ok, raised, integrity_error,
  Code, null, is_some, distinct,
}
use codex_post_office.Hub.{
  Hub, Actor, ActorKind, Endpoint, Mailbox, ProjectStatus, Task, Status, Scope,
}
use codex_post_office.Kernel.Transaction.{Tx, require, reading, row, modify, pure, ◌>>=◌, ◌>>◌}
use codex_post_office.Kernel.Documents.{endpoint_state, mailbox_state, scope_document, sorted}
use codex_post_office.Kernel.Events.Query.{aggregate_root, aggregate_position}
use codex_post_office.Kernel.Events.Append.{append_hub_event}
use codex_post_office.Kernel.Authority.Call.{Call, actor_of}
use codex_post_office.Kernel.Authority.Scopes.{validate_endpoint_access_scope}
use codex_post_office.Kernel.Authority.Basis.{
  Basis, exact_author_action, authority_grant, prepare_mutation_authority,
}
use codex_post_office.Kernel.Authority.Finalize.{Response, finalize_mutation}
use codex_post_office.Kernel.Mutations.Common.{
  endpoint_of, project_of, task_of, holds, singleton, require_aggregate,
}
use codex_post_office.Kernel.Mutations.Mailboxes.{generations, is_mailbox}

-- The parameters of endpoint.allocate.
pub record EndpointRequest : Type 0 where
  pub project_id : ℕ
  pub task_id : Option ℕ
  pub role : String
  pub access_scope : Scope
  pub actor_kind : ActorKind

abbrev provisionable : ProjectStatus → Bool
provisionable ProjectStatus.provisioning = true
provisionable ProjectStatus.active = true
provisionable _ = false

abbrev task_belongs : Hub → ℕ → Option ℕ → Bool
task_belongs h project_id none = true
task_belongs h project_id (some task_id) =
    holds (λ (t : Task). t.project_id == project_id) (task_of h task_id)

abbrev pub endpoint_facts : ℕ → Option ℕ → Scope
endpoint_facts project_id task_id = record {
  project_ids = project_id ∷ [];
  task_ids = singleton task_id;
  package_ids = [];
  scope_domains = [];
}

-- the scope that a grant's basis carries
abbrev grant_scope : Basis → Option Scope
grant_scope (exact_author_action _) = none
grant_scope (authority_grant _ g) = some g.scope

startup_document : ℕ → EndpointRequest → Json
startup_document id r = obj (
    ("endpointId", num id)
    ∷ ("projectId", num r.project_id)
    ∷ ("taskId", opt r.task_id)
    ∷ ("role", str r.role)
    ∷ ("accessScope", scope_document r.access_scope)
    ∷ [])

abbrev pub is_endpoint : ℕ → Endpoint → Bool
is_endpoint id e = e.endpoint_id == id

-- of a mailbox generation: ACTIVE or PROVISIONAL
abbrev pub is_usable : Status → Bool
is_usable Status.active = true
is_usable Status.provisional = true
is_usable _ = false

abbrev gone : Status → Bool
gone Status.revoked = true
gone Status.retired = true
gone _ = false

usable_mailboxes : ℕ → Hub → List ℕ
usable_mailboxes endpoint_id h = sorted (
    distinct (
      map (λ (m : Mailbox). m.mailbox_id)
        (select (λ m. m.endpoint_id == endpoint_id && is_usable m.status) h.mailboxes)))

-- the draws of the child events begin here
abbrev pub child_draw : ℕ
child_draw = 3

module _ (sha256_json : Json → ℕ) where
  abbrev endpoint_root : ℕ → Json → ℕ
  endpoint_root id detail = aggregate_root sha256_json "Endpoint" id detail

  new_endpoint : ℕ → ℕ → EndpointRequest → Endpoint
  unfolding startup_document
  new_endpoint id actor_id r = record {
    endpoint_id = id;
    actor_id = actor_id;
    project_id = r.project_id;
    task_id = r.task_id;
    role = r.role;
    access_scope = r.access_scope;
    status = Status.active;
    startup_root = sha256_json (startup_document id r);
    created_event_id = none;
  }

  -- endpoint.allocate; `actor_id` is derived from the endpoint's identifier
  unfoldable pub allocate_endpoint : (ℕ → ℕ) → Call → EndpointRequest → Tx Response
  unfolding new_endpoint
  allocate_endpoint actor_name c r = do
    let id = c.request.aggregate_id
    require (λ h. not (is_some (endpoint_of h id))) (raised Code.concurrency_conflict)
    require_aggregate c.request "Endpoint" id 0 (endpoint_root id null)
    p ← row (λ h. project_of h r.project_id) (raised Code.input_invalid)
    require (λ _. provisionable p.status) (raised Code.input_invalid)
    require (λ h. task_belongs h p.project_id r.task_id) (raised Code.input_invalid)
    basis ← prepare_mutation_authority c (endpoint_facts p.project_id r.task_id)
    reading λ h.
        validate_endpoint_access_scope h r.access_scope p.project_id r.task_id (grant_scope basis)
    require (λ h. not (is_some (actor_of h (actor_name id)))) (raised Code.concurrency_conflict)
    modify λ h. record h {
      actors =
          h.actors
          ++ record {
            actor_id = actor_name id;
            actor_kind = r.actor_kind;
            role = r.role;
            status = Status.active;
          }
            ∷ [];
    }
    require (λ h. not (any (λ (e : Endpoint). e.actor_id == actor_name id) h.endpoints))
        integrity_error
    modify (λ h. record h { endpoints = h.endpoints ++ new_endpoint id (actor_name id) r ∷ [] })
    created ← row (λ h. endpoint_of h id) (raised Code.internal_error)
    finalize_mutation sha256_json c basis (record {
      before_root = endpoint_root id null;
      after_root = endpoint_root id (endpoint_state created);
      aggregate_version = 1;
      created_ids = id ∷ actor_name id ∷ [];
      event_result = ("state", str "ACTIVE") ∷ ("actorId", num (actor_name id)) ∷ [];
      link = λ event h. record h {
        endpoints =
            update (is_endpoint id) (λ e. record e { created_event_id = some event }) h.endpoints;
      };
    })

  -- One round of the loop over the endpoint's mailboxes.
  unfoldable pub revoke_mailbox : Call → ℕ → ℕ → ℕ → Tx ℕ
  revoke_mailbox c endpoint_id draw id = do
    before_root ←
        reading
          λ h. ok (aggregate_root sha256_json "Mailbox" id (mailbox_state (generations h id) id))
    version ← aggregate_position "Mailbox" id before_root
    modify λ h. record h {
      mailboxes =
          update (λ m. is_mailbox id m && is_usable m.status)
            (λ m. record m { status = Status.revoked }) h.mailboxes;
    }
    after_root ←
        reading
          λ h. ok (aggregate_root sha256_json "Mailbox" id (mailbox_state (generations h id) id))
    append_hub_event sha256_json (record {
      request = c.request;
      capability_id = c.capability.capability_id;
      aggregate_type = "Mailbox";
      aggregate_id = id;
      aggregate_version = version + 1;
      before_root = before_root;
      after_root = after_root;
      event_result = fields (("state", str "REVOKED") ∷ ("parentEndpointId", num endpoint_id) ∷ []);
      occurred_at = c.recorded_at;
      event_id = c.fresh draw;
    })

  unfoldable pub revoke_mailboxes : Call → ℕ → ℕ → List ℕ → Tx (List ℕ)
  revoke_mailboxes c endpoint_id draw [] = pure []
  revoke_mailboxes c endpoint_id draw (id ∷ ids) = do
    event ← revoke_mailbox c endpoint_id draw id
    rest ← revoke_mailboxes c endpoint_id (draw + 1) ids
    pure (event ∷ rest)

  -- endpoint.revoke
  unfoldable pub revoke_endpoint : Call → ℕ → ℕ → Tx Response
  unfolding usable_mailboxes
  revoke_endpoint c id reason = do
    e ← row (λ h. endpoint_of h id) (raised Code.input_invalid)
    let before_root = endpoint_root id (endpoint_state e)
    version ← aggregate_position "Endpoint" id before_root
    require_aggregate c.request "Endpoint" id version before_root
    require (λ _. not (gone e.status)) (raised Code.concurrency_conflict)
    basis ← prepare_mutation_authority c (endpoint_facts e.project_id e.task_id)
    mailbox_ids ← reading (λ h. ok (usable_mailboxes id h))
    children ← revoke_mailboxes c id child_draw mailbox_ids
    modify λ h. record h {
      endpoints = update (is_endpoint id) (λ o. record o { status = Status.revoked }) h.endpoints;
    }
    modify λ h. record h {
      actors =
          update (λ (a : Actor). a.actor_id == e.actor_id)
            (λ a. record a { status = Status.revoked }) h.actors;
    }
    updated ← row (λ h. endpoint_of h id) (raised Code.internal_error)
    finalize_mutation sha256_json c basis (record {
      before_root = before_root;
      after_root = endpoint_root id (endpoint_state updated);
      aggregate_version = version + 1;
      created_ids = [];
      event_result =
          ("state", str "REVOKED")
          ∷ ("reason", num reason)
          ∷ ("mailboxRevocationEventIds", arr (nums children))
          ∷ [];
      link = λ event h. h;
    })
