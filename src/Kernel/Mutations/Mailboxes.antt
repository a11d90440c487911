-- ===== src/Kernel/Mutations/Mailboxes.antt =====
-- mailbox.allocate and mailbox.rotateGeneration.
use codex_post_office.Base.{
  ℕ, ◌+◌, Bool, not, ◌&&◌, Option, none, some, List, [], ◌∷◌, ◌++◌, Json, num, str, find, any,
  update, select, leb, ◌==◌, if◌then◌else◌, ok, err, Result, raised, integrity_error, Code, null,
}
use codex_post_office.Hub.{Hub, Mailbox, MailDomain, Endpoint, Status, Scope, is_active}
use codex_post_office.Kernel.Transaction.{Tx, require, reading, row, modify, ◌>>=◌, ◌>>◌}
use codex_post_office.Kernel.Documents.{mailbox_state}
use codex_post_office.Kernel.Events.Query.{aggregate_root, aggregate_position}
use codex_post_office.Kernel.Authority.Call.{Call}
use codex_post_office.Kernel.Authority.Basis.{prepare_mutation_authority}
use codex_post_office.Kernel.Authority.Finalize.{Response, finalize_mutation}
use codex_post_office.Kernel.Mutations.Common.{endpoint_of, singleton, require_aggregate}

abbrev pub is_mailbox : ℕ → Mailbox → Bool
is_mailbox id m = m.mailbox_id == id

-- the rows of a mailbox, by generation
unfoldable pub insert_generation : Mailbox → List Mailbox → List Mailbox
insert_generation m [] = m ∷ []
insert_generation m (o ∷ os) =
    if leb m.generation o.generation then m ∷ o ∷ os else o ∷ insert_generation m os

unfoldable pub by_generation : List Mailbox → List Mailbox
unfolding insert_generation
by_generation [] = []
by_generation (m ∷ ms) = insert_generation m (by_generation ms)

unfoldable pub generations : Hub → ℕ → List Mailbox
unfolding by_generation
generations h id = by_generation (select (is_mailbox id) h.mailboxes)

abbrev pub is_generation : ℕ → ℕ → Mailbox → Bool
is_generation id generation m = m.mailbox_id == id && m.generation == generation

abbrev pub is_live : Mailbox → Bool
is_live m = is_active m.status

-- `max(generation) `
abbrev pub max_generation : List Mailbox → ℕ
max_generation [] = 0
max_generation (m ∷ ms) =
    let rest = max_generation ms in if leb rest m.generation then m.generation else rest

-- the only active generation
abbrev pub only_active : List Mailbox → Result Mailbox
only_active [] = err (raised Code.database_invalid)
only_active (m ∷ []) = ok m
only_active (m ∷ _ ∷ _) = err (raised Code.database_invalid)

abbrev domain_of : Hub → ℕ → Option MailDomain
domain_of h id = find (λ (d : MailDomain). d.mail_domain == id) h.mail_domains

abbrev pub mailbox_facts : Endpoint → ℕ → Scope
mailbox_facts e domain = record {
  project_ids = e.project_id ∷ [];
  task_ids = singleton e.task_id;
  package_ids = [];
  scope_domains = domain ∷ [];
}

abbrev pub new_mailbox : ℕ → ℕ → ℕ → ℕ → Mailbox
new_mailbox id generation domain endpoint_id = record {
  mailbox_id = id;
  generation = generation;
  mail_domain = domain;
  endpoint_id = endpoint_id;
  status = Status.active;
  created_event_id = none;
}

-- The INSERT, with the primary key of the table.
abbrev pub insert_mailbox : Mailbox → Tx (Unit {0})
insert_mailbox m =
    require (λ h. not (any (is_generation m.mailbox_id m.generation) h.mailboxes)) integrity_error
    >> modify (λ h. record h { mailboxes = h.mailboxes ++ m ∷ [] })

abbrev pub link_generation : ℕ → ℕ → ℕ → Hub → Hub
link_generation id generation event h = record h {
  mailboxes =
      update (is_generation id generation) (λ m. record m { created_event_id = some event })
        h.mailboxes;
}

module _ (sha256_json : Json → ℕ) where
  abbrev mailbox_root : ℕ → Json → ℕ
  mailbox_root id detail = aggregate_root sha256_json "Mailbox" id detail

  -- mailbox.allocate
  unfoldable pub allocate_mailbox : Call → ℕ → ℕ → Tx Response
  allocate_mailbox c endpoint_id domain_id = do
    let id = c.request.aggregate_id
    require (λ h. not (any (is_mailbox id) h.mailboxes)) (raised Code.concurrency_conflict)
    require_aggregate c.request "Mailbox" id 0 (mailbox_root id null)
    e ← row (λ h. endpoint_of h endpoint_id) (raised Code.input_invalid)
    require (λ _. is_active e.status) (raised Code.input_invalid)
    d ← row (λ h. domain_of h domain_id) (raised Code.input_invalid)
    require (λ _. d.project_id == e.project_id) (raised Code.input_invalid)
    basis ← prepare_mutation_authority c (mailbox_facts e domain_id)
    insert_mailbox (new_mailbox id 1 domain_id e.endpoint_id)
    after_root ← reading (λ h. ok (mailbox_root id (mailbox_state (generations h id) id)))
    finalize_mutation sha256_json c basis (record {
      before_root = mailbox_root id null;
      after_root = after_root;
      aggregate_version = 1;
      created_ids = id ∷ [];
      event_result = ("state", str "ACTIVE") ∷ ("generation", num 1) ∷ [];
      link = link_generation id 1;
    })

  -- What follows the read of the generations.
  unfoldable pub rotate_from : Call → ℕ → ℕ → List Mailbox → Tx Response
  rotate_from c id reason rows = do
    require (λ h. any (is_mailbox id) h.mailboxes) (raised Code.input_invalid)
    current ← reading (λ _. only_active (select is_live rows))
    e ← row (λ h. endpoint_of h current.endpoint_id) (raised Code.input_invalid)
    require (λ _. is_active e.status) (raised Code.input_invalid)
    let before_root = mailbox_root id (mailbox_state rows id)
    version ← aggregate_position "Mailbox" id before_root
    require_aggregate c.request "Mailbox" id version before_root
    basis ← prepare_mutation_authority c (mailbox_facts e current.mail_domain)
    let next_generation = max_generation rows + 1
    modify λ h. record h {
      mailboxes =
          update (is_generation id current.generation) (λ m. record m { status = Status.retired })
            h.mailboxes;
    }
    insert_mailbox (new_mailbox id next_generation current.mail_domain current.endpoint_id)
    after_root ← reading (λ h. ok (mailbox_root id (mailbox_state (generations h id) id)))
    finalize_mutation sha256_json c basis (record {
      before_root = before_root;
      after_root = after_root;
      aggregate_version = version + 1;
      created_ids = id ∷ [];
      event_result =
          ("state", str "ACTIVE")
          ∷ ("previousGeneration", num current.generation)
          ∷ ("generation", num next_generation)
          ∷ ("reason", num reason)
          ∷ [];
      link = link_generation id next_generation;
    })

  -- mailbox.rotateGeneration
  unfoldable pub rotate_generation : Call → ℕ → ℕ → Tx Response
  rotate_generation c id reason = do
    rows ← reading (λ h. ok (generations h id))
    rotate_from c id reason rows
