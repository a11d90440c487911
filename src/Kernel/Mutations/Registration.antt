-- ===== src/Kernel/Mutations/Registration.antt =====
-- The rows that message.register inserts, and their constraints.
use codex_post_office.Base.{
  ℕ, Bool, true, false, not, ◌&&◌, ◌||◌, Option, none, some, [], ◌∷◌, ◌++◌, map, any, all,
  all_distinct, distinct, ◌==◌, if◌then◌else◌, same_list, is_some, raised, integrity_error, Code,
}
use codex_post_office.Hub.{
  Hub, Message, MessageState, MessageDraft, BundleDraft, BundlePayload, Bundle, BundleState,
  StorageCopy, LocationKind, MailDomain, local_cas, local_backup, database_blob,
}
use codex_post_office.Kernel.Transaction.{Tx, require, modify, ◌>>◌}
use codex_post_office.Kernel.Documents.{sorted}
use codex_post_office.Kernel.Authority.Basis.{action_of, grant_of}
use codex_post_office.Kernel.Mutations.Common.{generation_of, cycle_of, message_of}

-- `location_kind IN ('LOCAL_CAS','DATABASE_BLOB')`
abbrev pub is_custody : LocationKind → Bool
is_custody local_cas = true
is_custody local_backup = false
is_custody database_blob = true

abbrev pub custody_verified : ℕ → Hub → Bool
custody_verified sha256 h =
    any (λ (s : StorageCopy). s.content_sha256 == sha256 && is_custody s.location_kind) h.copies

-- `json.loads(plan["semantic_message_json"]) == message`
unfoldable pub same_draft : MessageDraft → MessageDraft → Bool
same_draft m n =
    m.message_id == n.message_id
    && m.mail_domain == n.mail_domain
    && m.message_type == n.message_type
    && m.sender_endpoint_id == n.sender_endpoint_id
    && m.recipient_mailbox_id == n.recipient_mailbox_id
    && m.recipient_generation == n.recipient_generation
    && same_list m.related_message_ids n.related_message_ids
    && m.authority_basis_id == n.authority_basis_id
    && m.requested_action == n.requested_action
    && m.completion_criteria == n.completion_criteria
    && m.content_root == n.content_root
    && m.semantic_cycle_id == n.semantic_cycle_id

-- the columns `authority_grant_id` and `exact_author_action_id` of a registered message
abbrev pub basis_columns : ℕ → Option ℕ → Option ℕ × Option ℕ
basis_columns id none = (none, some id)
basis_columns id (some g) = (some g, none)

abbrev pub grant_column : Hub → ℕ → Option ℕ
grant_column h id = if is_some (grant_of h id) then some id else none

abbrev pub new_message : MessageDraft → ℕ → Option ℕ × Option ℕ → Message
new_message m project (grant, action) = record {
  message_id = m.message_id;
  project_id = project;
  mail_domain = m.mail_domain;
  message_type = m.message_type;
  sender_endpoint_id = m.sender_endpoint_id;
  recipient_mailbox_id = m.recipient_mailbox_id;
  recipient_generation = m.recipient_generation;
  related_message_ids = sorted (distinct m.related_message_ids);
  authority_grant_id = grant;
  exact_author_action_id = action;
  requested_action = m.requested_action;
  completion_criteria = m.completion_criteria;
  content_root = m.content_root;
  semantic_cycle_id = m.semantic_cycle_id;
  state = MessageState.registered;
  aggregate_version = 1;
  aggregate_root = 0;
  registered_event_id = none;
}

abbrev pub new_bundle : BundleDraft → ℕ → Bundle
new_bundle b message = record {
  bundle_id = b.bundle_id;
  message_id = message;
  canonical_filename = b.canonical_filename;
  bundle_version = b.bundle_version;
  size_bytes = b.size_bytes;
  sha256 = b.sha256;
  manifest_root = b.manifest_root;
  state = BundleState.registered;
  payloads = b.payloads;
}

-- The foreign keys of the INSERT into `semantic_messages`.
abbrev references_hold : MessageDraft → Hub → Bool
references_hold m h =
    any (λ (d : MailDomain). d.mail_domain == m.mail_domain) h.mail_domains
    && is_some (generation_of h m.recipient_mailbox_id m.recipient_generation)
    && is_some (cycle_of h m.semantic_cycle_id)
    && (is_some (grant_of h m.authority_basis_id) || is_some (action_of h m.authority_basis_id))

-- Every related message exists; the new one, which is inserted by then, does.
abbrev related_exist : MessageDraft → Hub → Bool
related_exist m h = all (λ r. r == m.message_id || is_some (message_of h r)) m.related_message_ids

-- The UNIQUE constraints on the bundles, and on the paths in one bundle.
abbrev bundle_insertable : BundleDraft → Hub → Bool
bundle_insertable b h =
    not (any (λ (o : Bundle). o.bundle_id == b.bundle_id || o.sha256 == b.sha256) h.bundles)
    && all_distinct (map (λ (p : BundlePayload). p.relative_path) b.payloads)

unfoldable pub add_message : MessageDraft → ℕ → Hub → Hub
add_message m project h = record h {
  messages =
      h.messages
      ++ new_message m project
          (basis_columns m.authority_basis_id (grant_column h m.authority_basis_id))
        ∷ [];
}

-- The INSERTs of message.register.
unfoldable pub insert_message : MessageDraft → BundleDraft → ℕ → Tx (Unit {0})
insert_message m b project = do
  require (references_hold m) integrity_error
  modify (add_message m project)
  require (related_exist m) (raised Code.input_invalid)
  require (bundle_insertable b) integrity_error
  modify λ h. record h { bundles = h.bundles ++ new_bundle b m.message_id ∷ [] }
