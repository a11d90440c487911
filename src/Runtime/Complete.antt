-- ===== src/Runtime/Complete.antt =====
-- `_complete_locked` and `complete_transport`: a delivery is completed from its evidence.
use codex_post_office.Base.{
  ℕ, ◌+◌, String, Bool, true, false, ◌&&◌, Option, none, some, List, [], ◌∷◌, Json, num, str, obj,
  opt, fields, find, update, ◌==◌, ltb, same_option, raised, Code,
}
use codex_post_office.Hub.{
  Hub, Attempt, AttemptState, Dispatch, DispatchState, Message, MessageState, actor_kind_text,
}
use codex_post_office.Kernel.Transaction.{Tx, require, reading, row, modify, pure, ◌>>=◌, ◌>>◌}
use codex_post_office.Kernel.Documents.{message_state}
use codex_post_office.Kernel.Events.Query.{Request, aggregate_root, aggregate_position}
use codex_post_office.Kernel.Events.Append.{append_hub_event}
use codex_post_office.Runtime.Courier.{Visit, Courier, courier, event_draw, request_draw}
use codex_post_office.Runtime.Dispatches.{
  is_dispatch, dispatch_of, attempt_of, record_runtime_receipt, resolve_attention,
  resolve_superseded_attention,
}

-- The delivery evidence: `marker` and `receiptId`.
pub record Evidence : Type 0 where
  pub marker : ℕ
  pub receipt_id : ℕ

pub record Completed : Type 0 where
  pub event_id : ℕ
  pub runtime_receipt_id : ℕ
  pub completed_message_id : ℕ

abbrev pub evidence_document : Evidence → Json
evidence_document e = obj (("marker", num e.marker) ∷ ("receiptId", num e.receipt_id) ∷ [])

-- `_message_authority`
abbrev pub message_authority : Option ℕ → Option ℕ → Option ℕ × Option ℕ
message_authority (some grant) action = (some grant, none)
message_authority none action = (none, action)

abbrev authority_fields : Option ℕ → Option ℕ → List (String × Json)
authority_fields (some grant) action = ("authorityGrantId", num grant) ∷ []
authority_fields none action = ("exactAuthorActionId", opt action) ∷ []

request_document : Visit → Courier → Message → String → String → ℕ → Json → Json
request_document v k m operation kind id parameters = obj (
    ("operation", str operation)
    ∷ ("requestId", num (v.fresh request_draw id))
    ∷ (
      "actor",
      obj (
          ("id", num k.actor.actor_id)
          ∷ ("kind", str (actor_kind_text k.actor.actor_kind))
          ∷ ("role", str k.actor.role)
          ∷ []),
    )
    ∷ (
      "authority",
      obj (
          ("capabilityId", num k.capability.capability_id)
          ∷ authority_fields m.authority_grant_id m.exact_author_action_id),
    )
    ∷ ("aggregate", obj (("type", str kind) ∷ ("id", num id) ∷ []))
    ∷ ("parameters", parameters)
    ∷ [])

-- `_runtime_request`, which expects no version and no root
unfoldable pub runtime_request :
    (Json → ℕ) → Visit → Courier → Message → String → String → ℕ → Json → Request
unfolding request_document
runtime_request sha256_json v k m operation kind id parameters = record {
  operation = operation;
  request_id = v.fresh request_draw id;
  actor_id = k.actor.actor_id;
  actor_kind = actor_kind_text k.actor.actor_kind;
  actor_role = k.actor.role;
  capability_id = k.capability.capability_id;
  authority_grant_id = (message_authority m.authority_grant_id m.exact_author_action_id).0;
  exact_author_action_id = (message_authority m.authority_grant_id m.exact_author_action_id).1;
  aggregate_type = kind;
  aggregate_id = id;
  expected_version = none;
  expected_root = none;
  document = request_document v k m operation kind id parameters;
  scope_json = sha256_json parameters;
}

abbrev pub is_message : ℕ → Message → Bool
is_message id m = m.message_id == id

abbrev pub message_of : Hub → ℕ → Option Message
message_of h id = find (is_message id) h.messages

-- the dispatch, with the receipt that was observed and without a lease
abbrev pub receipted : ℕ → ℕ → Dispatch → Dispatch
receipted receipt_id now d = record d {
  state = DispatchState.receipted;
  observed_receipt_id = some receipt_id;
  lease_owner_actor_id = none;
  lease_token_sha256 = none;
  lease_expires_at = none;
  updated_at = now;
}

-- The three UPDATEs of a delivery.
unfoldable pub mark_delivered : Visit → Dispatch → Attempt → Message → Evidence → Tx (Unit {0})
mark_delivered v d t m evidence = do
  modify λ h. record h {
    dispatches =
        update (is_dispatch d.dispatch_id) (receipted evidence.receipt_id v.now) h.dispatches;
  }
  modify λ h. record h {
    attempts =
        update (λ (a : Attempt). a.transport_attempt_id == t.transport_attempt_id)
          (λ a. record a { state = AttemptState.receipted; updated_at = v.now }) h.attempts;
  }
  modify λ h. record h {
    messages =
        update (is_message m.message_id) (λ o. record o { state = MessageState.delivered })
          h.messages;
  }

abbrev pub is_leased : DispatchState → Bool
is_leased DispatchState.leased = true
is_leased _ = false

-- a lease that has not run out
abbrev pub lease_runs : Option ℕ → ℕ → Bool
lease_runs none now = false
lease_runs (some t) now = ltb now t

module _ (sha256_json : Json → ℕ) where
  abbrev message_root : Message → ℕ
  message_root m = aggregate_root sha256_json "SemanticMessage" m.message_id (message_state m)

  -- `_complete_locked`
  unfoldable pub complete_locked : Visit → Courier → Dispatch → Evidence → Tx Completed
  complete_locked v k d evidence = do
    t ← row (λ h. attempt_of h d.transport_attempt_id) (raised Code.internal_error)
    m ← row (λ h. message_of h t.message_id) (raised Code.internal_error)
    version ← aggregate_position "SemanticMessage" m.message_id (message_root m)
    mark_delivered v d t m evidence
    updated ← row (λ h. message_of h m.message_id) (raised Code.internal_error)
    modify λ h. record h {
      messages =
          update (is_message m.message_id)
            (λ o. record o {
              aggregate_version = version + 1;
              aggregate_root = message_root updated;
            })
            h.messages;
    }
    event ← append_hub_event sha256_json (record {
      request =
          runtime_request sha256_json v k m "runtime.delivery.complete" "SemanticMessage"
            m.message_id (evidence_document evidence);
      capability_id = k.capability.capability_id;
      aggregate_type = "SemanticMessage";
      aggregate_id = m.message_id;
      aggregate_version = version + 1;
      before_root = message_root m;
      after_root = message_root updated;
      event_result = fields (
          ("state", str "DELIVERED")
          ∷ ("dispatchId", num d.dispatch_id)
          ∷ ("observedReceiptId", num evidence.receipt_id)
          ∷ []);
      occurred_at = v.now;
      event_id = v.fresh event_draw m.message_id;
    })
    receipt ←
        record_runtime_receipt sha256_json v d.dispatch_id "DELIVERED" (evidence_document evidence)
    resolve_attention v.now d.dispatch_id
    resolve_superseded_attention v.now t
    pure (record {
      event_id = event;
      runtime_receipt_id = receipt;
      completed_message_id = m.message_id;
    })

  -- `complete_transport`; no receipt stands for an empty `observed_receipt_id`
  unfoldable pub complete_transport : (ℕ → ℕ) → Visit → ℕ → ℕ → ℕ → Option ℕ → Tx Completed
  complete_transport sha256_bytes v dispatch_id lease_token marker observed = do
    k ← reading (courier sha256_bytes v)
    d ← row (λ h. dispatch_of h dispatch_id) (raised Code.concurrency_conflict)
    require (λ _. is_leased d.state && same_option d.lease_owner_actor_id (some k.actor.actor_id))
        (raised Code.concurrency_conflict)
    require (λ _. same_option d.lease_token_sha256 (some (sha256_bytes lease_token)))
        (raised Code.authentication_failed)
    require (λ _. lease_runs d.lease_expires_at v.checked_at) (raised Code.concurrency_conflict)
    require (λ _. marker == d.observable_marker) (raised Code.observation_mismatch)
    receipt_id ← row (λ _. observed) (raised Code.observation_mismatch)
    complete_locked v k d (record { marker = marker; receipt_id = receipt_id })
