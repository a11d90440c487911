-- ===== src/Kernel/Mutations/Projects.antt =====
-- project.update, project.pause and project.archive.
use codex_post_office.Base.{
  ℕ, ◌+◌, Bool, true, false, not, ◌&&◌, ◌||◌, Option, none, some, List, [], ◌∷◌, ◌++◌, Json, opt,
  str, any, update, select, ◌==◌, ok, raised, integrity_error, Code, contains, all_distinct,
}
use codex_post_office.Hub.{
  Hub, Project, ProjectStatus, MailDomain, Mailbox, Message, Task, TaskState, Scope,
  is_active_project, project_status_text,
}
use codex_post_office.Kernel.Transaction.{Tx, require, reading, row, modify, pure, ◌>>=◌, ◌>>◌}
use codex_post_office.Kernel.Documents.{project_state, sorted}
use codex_post_office.Kernel.Events.Query.{aggregate_root, aggregate_position}
use codex_post_office.Kernel.Authority.Call.{Call}
use codex_post_office.Kernel.Authority.Basis.{prepare_mutation_authority}
use codex_post_office.Kernel.Authority.Finalize.{Response, finalize_mutation}
use codex_post_office.Kernel.Mutations.Common.{project_of, require_aggregate}

-- The parameter `changes`.
pub record Changes : Type 0 where
  pub display_name : Option ℕ
  pub policy_root : Option ℕ
  pub domains : Option (List ℕ)

-- The operation with its parameters.
pub data ProjectOperation : Type 0 where
  change : Changes → ProjectOperation
  pause : ℕ → ProjectOperation
  archive : ℕ → ProjectOperation

abbrev updateable : ProjectStatus → Bool
updateable ProjectStatus.active = true
updateable ProjectStatus.paused = true
updateable _ = false

abbrev is_paused : ProjectStatus → Bool
is_paused ProjectStatus.paused = true
is_paused _ = false

-- of a task: neither CLOSED nor CANCELLED
abbrev pub is_open_task : TaskState → Bool
is_open_task TaskState.closed = false
is_open_task TaskState.cancelled = false
is_open_task _ = true

abbrev pub is_project : ℕ → Project → Bool
is_project id p = p.project_id == id

abbrev pub set_name : ℕ → Option ℕ → Hub → Hub
set_name id none h = h
set_name id (some name) h = record h {
  projects = update (is_project id) (λ p. record p { display_name = name }) h.projects;
}

abbrev pub set_policy : ℕ → Option ℕ → Hub → Hub
set_policy id none h = h
set_policy id (some root) h = record h {
  projects = update (is_project id) (λ p. record p { policy_root = some root }) h.projects;
}

abbrev pub owned_by : ℕ → MailDomain → Bool
owned_by id d = d.project_id == id

-- A mailbox or a message names one of the project's domains: the foreign keys on
-- `project_mail_domains` then refuse the DELETE, whatever is inserted after it.
abbrev names_domain : Hub → ℕ → ℕ → Bool
names_domain h id domain =
    any (λ (d : MailDomain). owned_by id d && d.mail_domain == domain) h.mail_domains

unfoldable pub domains_referenced : ℕ → Hub → Bool
domains_referenced id h =
    any (λ (m : Mailbox). names_domain h id m.mail_domain) h.mailboxes
    || any (λ (m : Message). names_domain h id m.mail_domain) h.messages

abbrev domain_rows : ℕ → List ℕ → List MailDomain
domain_rows project_id [] = []
domain_rows project_id (d ∷ ds) =
    record { project_id = project_id; mail_domain = d } ∷ domain_rows project_id ds

-- the branch `if "mailDomains" in changes`
unfoldable pub replace_domains : ℕ → Option (List ℕ) → Tx (Unit {0})
replace_domains id none = pure tt
replace_domains id (some domains) = do
  require (λ _. all_distinct domains) (raised Code.input_invalid)
  require
      (λ h. not (
        any (λ (d : MailDomain). not (owned_by id d) && contains d.mail_domain domains)
          h.mail_domains))
      (raised Code.concurrency_conflict)
  require (λ h. not (domains_referenced id h)) integrity_error
  modify λ h. record h {
    mail_domains =
        select (λ d. not (owned_by id d)) h.mail_domains ++ domain_rows id (sorted domains);
  }

abbrev set_status : ℕ → ProjectStatus → Tx (Unit {0})
set_status id s =
    modify
      λ h. record h { projects = update (is_project id) (λ p. record p { status = s }) h.projects }

unfoldable pub project_change : Project → ProjectOperation → Tx (Option ℕ)
project_change p (change changes) = do
  require (λ _. updateable p.status) (raised Code.concurrency_conflict)
  modify (set_name p.project_id changes.display_name)
  modify (set_policy p.project_id changes.policy_root)
  replace_domains p.project_id changes.domains
  pure none
project_change p (pause reason) = do
  require (λ _. is_active_project p.status) (raised Code.concurrency_conflict)
  set_status p.project_id ProjectStatus.paused
  pure (some reason)
project_change p (archive reason) = do
  require (λ _. is_paused p.status) (raised Code.concurrency_conflict)
  require
      (λ h. not (any (λ (t : Task). t.project_id == p.project_id && is_open_task t.state) h.tasks))
      (raised Code.concurrency_conflict)
  set_status p.project_id ProjectStatus.archived
  pure (some reason)

abbrev pub project_facts : ℕ → Scope
project_facts id = record {
  project_ids = id ∷ [];
  task_ids = [];
  package_ids = [];
  scope_domains = [];
}

module _ (sha256_json : Json → ℕ) where
  abbrev project_root : ℕ → Json → ℕ
  project_root id detail = aggregate_root sha256_json "Project" id detail

  -- The handler of the three operations.
  unfoldable pub project_mutation : Call → ℕ → ProjectOperation → Tx Response
  project_mutation c id op = do
    p ← row (λ h. project_of h id) (raised Code.input_invalid)
    before_root ← reading (λ h. ok (project_root id (project_state h p)))
    version ← aggregate_position "Project" id before_root
    require_aggregate c.request "Project" id version before_root
    basis ← prepare_mutation_authority c (project_facts id)
    reason ← project_change p op
    updated ← row (λ h. project_of h id) (raised Code.internal_error)
    after_root ← reading (λ h. ok (project_root id (project_state h updated)))
    modify λ h. record h {
      projects =
          update (is_project id)
            (λ o. record o { aggregate_version = version + 1; aggregate_root = after_root })
            h.projects;
    }
    finalize_mutation sha256_json c basis (record {
      before_root = before_root;
      after_root = after_root;
      aggregate_version = version + 1;
      created_ids = [];
      event_result =
          ("state", str (project_status_text updated.status)) ∷ ("reason", opt reason) ∷ [];
      link = λ event h. h;
    })
