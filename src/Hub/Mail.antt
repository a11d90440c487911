-- ===== src/Hub/Mail.antt =====
-- The tables of messages: plans, registered messages with their bundles, transport attempts and
-- dispatches, and what acknowledging, reviewing and closing a message records.
use codex_post_office.Base.{ℕ, String, List, Option}
use codex_post_office.Hub.States.{MessageState, AttemptState, DispatchState, Channel}

pub data LocationKind : Type 0 where
  local_cas local_backup database_blob : LocationKind

pub data BundleState : Type 0 where
  created verified superseded_before_registration registered quarantined : BundleState

pub data MessagePlanState : Type 0 where
  planned registered superseded : MessagePlanState

pub data Decision : Type 0 where
  accepted correction_required rejected : Decision

-- A row of `storage_copies`.
pub record StorageCopy : Type 0 where
  pub content_sha256 : ℕ
  pub location_kind : LocationKind

-- The parameter `semanticMessage`, which `semantic_message_json` retains.
pub record MessageDraft : Type 0 where
  pub message_id : ℕ
  pub mail_domain : ℕ
  pub message_type : ℕ
  pub sender_endpoint_id : ℕ
  pub recipient_mailbox_id : ℕ
  pub recipient_generation : ℕ
  pub related_message_ids : List ℕ
  pub authority_basis_id : ℕ
  pub requested_action : ℕ
  pub completion_criteria : ℕ
  pub content_root : ℕ
  pub semantic_cycle_id : ℕ

-- An entry of `payloads` of a bundle: a row of `bundle_payloads`.
pub record BundlePayload : Type 0 where
  pub relative_path : ℕ
  pub size_bytes : ℕ
  pub sha256 : ℕ

-- The parameter `bundle`, which `bundle_json` retains.
pub record BundleDraft : Type 0 where
  pub bundle_id : ℕ
  pub semantic_message_id : ℕ
  pub canonical_filename : ℕ
  pub bundle_version : ℕ
  pub size_bytes : ℕ
  pub sha256 : ℕ
  pub manifest_root : ℕ
  pub payloads : List BundlePayload

-- A row of `message_plans`.
pub record MessagePlan : Type 0 where
  pub plan_id : ℕ
  pub message_id : ℕ
  pub bundle_id : ℕ
  pub semantic_message : MessageDraft
  pub bundle : BundleDraft
  pub plan_root : ℕ
  pub state : MessagePlanState
  pub aggregate_version : ℕ
  pub aggregate_root : ℕ
  pub created_event_id : Option ℕ
  pub registered_event_id : Option ℕ
  pub registered_at : Option ℕ

-- A row of `semantic_messages`, with the messages that `message_relations` relates to it, in order.
pub record Message : Type 0 where
  pub message_id : ℕ
  pub project_id : ℕ
  pub mail_domain : ℕ
  pub message_type : ℕ
  pub sender_endpoint_id : ℕ
  pub recipient_mailbox_id : ℕ
  pub recipient_generation : ℕ
  pub related_message_ids : List ℕ
  pub authority_grant_id : Option ℕ
  pub exact_author_action_id : Option ℕ
  pub requested_action : ℕ
  pub completion_criteria : ℕ
  pub content_root : ℕ
  pub semantic_cycle_id : ℕ
  pub state : MessageState
  pub aggregate_version : ℕ
  pub aggregate_root : ℕ
  pub registered_event_id : Option ℕ

-- A row of `message_bundles`, with its `bundle_payloads` by ordinal.
pub record Bundle : Type 0 where
  pub bundle_id : ℕ
  pub message_id : ℕ
  pub canonical_filename : ℕ
  pub bundle_version : ℕ
  pub size_bytes : ℕ
  pub sha256 : ℕ
  pub manifest_root : ℕ
  pub state : BundleState
  pub payloads : List BundlePayload

-- A row of `transport_attempts`; the column `destination` is a text of the mailbox and its
-- generation.
pub record Attempt : Type 0 where
  pub transport_attempt_id : ℕ
  pub message_id : ℕ
  pub bundle_id : ℕ
  pub source : ℕ
  pub destination_mailbox_id : ℕ
  pub destination_generation : ℕ
  pub state : AttemptState
  pub attempt_number : ℕ
  pub canonical_attempt_id : Option ℕ
  pub created_at : ℕ
  pub updated_at : ℕ

-- A row of `transport_dispatches`.
pub record Dispatch : Type 0 where
  pub dispatch_id : ℕ
  pub transport_attempt_id : ℕ
  pub channel : Channel
  pub destination_endpoint_id : ℕ
  pub destination_mailbox_id : ℕ
  pub destination_generation : ℕ
  pub state : DispatchState
  pub lease_owner_actor_id : Option ℕ
  pub lease_token_sha256 : Option ℕ
  pub lease_expires_at : Option ℕ
  pub observable_marker : ℕ
  pub observed_receipt_id : Option ℕ
  pub attempt_count : ℕ
  pub next_attempt_at : ℕ
  pub last_error_code : Option String
  pub created_at : ℕ
  pub updated_at : ℕ

-- A row of `acknowledgements`.
pub record Acknowledgement : Type 0 where
  pub acknowledgement_id : ℕ
  pub message_id : ℕ
  pub recipient_endpoint_id : ℕ
  pub payload_hashes : List ℕ
  pub evidence_root : ℕ

-- A row of `message_decisions`; no event stands for the text PENDING.
pub record MessageDecision : Type 0 where
  pub decision_id : ℕ
  pub message_id : ℕ
  pub decision : Decision
  pub rationale : ℕ
  pub event_id : Option ℕ

-- A row of `message_closures`; no event stands for the text PENDING.
pub record MessageClosure : Type 0 where
  pub message_id : ℕ
  pub summary : ℕ
  pub event_id : Option ℕ

abbrev pub decision_text : Decision → String
decision_text Decision.accepted = "ACCEPTED"
decision_text Decision.correction_required = "CORRECTION_REQUIRED"
decision_text Decision.rejected = "REJECTED"
