-- ===== src/Kernel/Mutations/Messages.antt =====
-- message.register, message.route, message.acknowledge, message.review and message.close.
use codex_post_office.Base.{
  ℕ, ◌+◌, String, Bool, true, false, not, ◌&&◌, ◌||◌, Option, none, some, List, [], ◌∷◌, ◌++◌, Json,
  null, num, str, arr, nums, fields, any, find, update, ◌==◌, is_some, ok, raised, integrity_error,
  Code,
}
use codex_post_office.Hub.{
  Hub, Message, MessageState, MessageDraft, Bundle, BundleState, MessagePlan, MessagePlanState,
  Attempt, AttemptState, Acknowledgement, Decision, MessageDecision, MessageClosure, decision_text,
}
use codex_post_office.Kernel.Transaction.{Tx, pure, require, reading, row, modify, ◌>>=◌, ◌>>◌}
use codex_post_office.Kernel.Documents.{message_state}
use codex_post_office.Kernel.Documents.Mail.{message_plan_state}
use codex_post_office.Kernel.Events.Query.{aggregate_root, aggregate_position}
use codex_post_office.Kernel.Events.Append.{append_hub_event}
use codex_post_office.Kernel.Authority.Call.{Call}
use codex_post_office.Kernel.Authority.Basis.{Basis, prepare_mutation_authority}
use codex_post_office.Kernel.Authority.Finalize.{Response, finalize_mutation}
use codex_post_office.Kernel.Mutations.Common.{
  endpoint_of, generation_of, message_of, set_message, own_draw, facts, require_aggregate,
  require_id,
}
use codex_post_office.Kernel.Mutations.MessagePlans.{
  is_planned, message_plan_of, set_message_plan, message_plan_root,
}
use codex_post_office.Kernel.Mutations.Registration.{custody_verified, same_draft, insert_message}

-- An operation on a registered message, with its parameters.
pub data MessageStep : Type 0 where
  route : ℕ → ℕ → ℕ → MessageStep
  acknowledge : List ℕ → MessageStep
  review : Decision → ℕ → MessageStep
  close : ℕ → MessageStep

-- The operation with its parameters.
pub data MessageOperation : Type 0 where
  register : MessageDraft → ℕ → MessageOperation
  step : ℕ → MessageStep → MessageOperation

-- `parameters.get("semanticMessageId") or parameters.get("semanticMessage", {}).get("id")`
abbrev pub operation_id : MessageOperation → ℕ
operation_id (register m bundle_id) = m.message_id
operation_id (step id op) = id

abbrev pub set_state : ℕ → MessageState → Hub → Hub
set_state id s = set_message id (λ m. record m { state = s })

abbrev pub is_registered : MessageState → Bool
is_registered MessageState.registered = true
is_registered _ = false

abbrev pub is_delivered : MessageState → Bool
is_delivered MessageState.delivered = true
is_delivered _ = false

-- `state in {"ACKNOWLEDGED", "RESPONSE_RETURNED"}`
abbrev pub is_reviewable : MessageState → Bool
is_reviewable MessageState.acknowledged = true
is_reviewable MessageState.response_returned = true
is_reviewable _ = false

abbrev pub is_reviewed : MessageState → Bool
is_reviewed MessageState.reviewed = true
is_reviewed _ = false

abbrev is_registered_bundle : BundleState → Bool
is_registered_bundle BundleState.registered = true
is_registered_bundle _ = false

abbrev new_attempt : Call → Message → Bundle → Attempt
new_attempt c m b = record {
  transport_attempt_id = c.fresh own_draw;
  message_id = m.message_id;
  bundle_id = b.bundle_id;
  source = m.sender_endpoint_id;
  destination_mailbox_id = m.recipient_mailbox_id;
  destination_generation = m.recipient_generation;
  state = AttemptState.pending;
  attempt_number = 1;
  canonical_attempt_id = none;
  created_at = c.recorded_at;
  updated_at = c.recorded_at;
}

-- The primary key of the attempts, and the UNIQUE constraint on their numbers.
abbrev attempt_clashes : Attempt → Hub → Bool
attempt_clashes t h =
    any
      (λ (o : Attempt).
        o.transport_attempt_id == t.transport_attempt_id
        || (o.message_id == t.message_id
            && o.bundle_id == t.bundle_id
            && o.attempt_number == t.attempt_number))
      h.attempts

abbrev pub insert_attempt : Attempt → Tx (Unit {0})
insert_attempt t =
    require (λ h. not (attempt_clashes t h)) integrity_error
    >> modify (λ h. record h { attempts = h.attempts ++ t ∷ [] })

abbrev pub is_plan_for : ℕ → ℕ → MessagePlan → Bool
is_plan_for message bundle p =
    p.message_id == message && p.bundle_id == bundle && is_planned p.state

module _ (sha256_json : Json → ℕ) where
  -- The change of each operation on the row that was read, with its event result.
  unfoldable pub message_change : Call → Message → MessageStep → Tx (List (String × Json))
  message_change c m (route bundle mailbox generation) = do
    require
        (λ _.
          is_registered m.state
          && mailbox == m.recipient_mailbox_id
          && generation == m.recipient_generation)
        (raised Code.concurrency_conflict)
    b ←
        row
          (λ h.
            find
              (λ (o : Bundle).
                o.bundle_id == bundle
                && o.message_id == m.message_id
                && is_registered_bundle o.state)
              h.bundles)
          (raised Code.input_invalid)
    insert_attempt (new_attempt c m b)
    modify (set_state m.message_id MessageState.custody_recorded)
    pure (("state", str "CUSTODY_RECORDED") ∷ ("transportAttemptId", num (c.fresh own_draw)) ∷ [])
  message_change c m (acknowledge payload_hashes) = do
    require (λ _. is_delivered m.state) (raised Code.concurrency_conflict)
    mailbox ←
        row (λ h. generation_of h m.recipient_mailbox_id m.recipient_generation)
          (raised Code.internal_error)
    let acknowledgement : Acknowledgement = record {
      acknowledgement_id = c.fresh own_draw;
      message_id = m.message_id;
      recipient_endpoint_id = mailbox.endpoint_id;
      payload_hashes = payload_hashes;
      evidence_root = sha256_json (arr (nums payload_hashes));
    }
    require
        (λ h. not (
          any
            (λ (a : Acknowledgement).
              a.acknowledgement_id == c.fresh own_draw
              || (a.message_id == m.message_id && a.recipient_endpoint_id == mailbox.endpoint_id))
            h.acknowledgements))
        integrity_error
    modify λ h. record h { acknowledgements = h.acknowledgements ++ acknowledgement ∷ [] }
    modify (set_state m.message_id MessageState.acknowledged)
    pure (("state", str "ACKNOWLEDGED") ∷ ("acknowledgementId", num (c.fresh own_draw)) ∷ [])
  message_change c m (review decision rationale) = do
    require (λ _. is_reviewable m.state) (raised Code.concurrency_conflict)
    let row_ : MessageDecision = record {
      decision_id = c.fresh own_draw;
      message_id = m.message_id;
      decision = decision;
      rationale = rationale;
      event_id = none;
    }
    require
        (λ h. not (any (λ (d : MessageDecision). d.decision_id == c.fresh own_draw) h.decisions))
        integrity_error
    modify λ h. record h { decisions = h.decisions ++ row_ ∷ [] }
    modify (set_state m.message_id MessageState.reviewed)
    pure (
        ("state", str "REVIEWED")
        ∷ ("decision", str (decision_text decision))
        ∷ ("decisionId", num (c.fresh own_draw))
        ∷ [])
  message_change c m (close summary) = do
    require (λ _. is_reviewed m.state) (raised Code.concurrency_conflict)
    require (λ h. not (any (λ (o : MessageClosure). o.message_id == m.message_id) h.closures))
        integrity_error
    modify λ h. record h {
      closures =
          h.closures
          ++ record { message_id = m.message_id; summary = summary; event_id = none } ∷ [];
    }
    modify (set_state m.message_id MessageState.closed)
    pure (("state", str "CLOSED") ∷ ("summary", num summary) ∷ [])

  -- The row of `message_decisions` or `message_closures` that the event is entered in.
  unfoldable pub message_link : Call → ℕ → MessageStep → ℕ → Hub → Hub
  message_link c id (review decision rationale) event h = record h {
    decisions =
        update (λ (d : MessageDecision). d.decision_id == c.fresh own_draw)
          (λ d. record d { event_id = some event }) h.decisions;
  }
  message_link c id (close summary) event h = record h {
    closures =
        update (λ (o : MessageClosure). o.message_id == id)
          (λ o. record o { event_id = some event }) h.closures;
  }
  message_link c id (route bundle mailbox generation) event h = h
  message_link c id (acknowledge payload_hashes) event h = h

  abbrev pub message_root : ℕ → Json → ℕ
  message_root id detail = aggregate_root sha256_json "SemanticMessage" id detail

  abbrev optional_message : Option Message → Json
  optional_message none = null
  optional_message (some m) = message_state m

  unfoldable pub finish_message :
      Call → Basis → ℕ → ℕ → ℕ → List ℕ → List (String × Json) → (ℕ → Hub → Hub) → Tx Response
  finish_message c basis id before_root next created event_result link = do
    updated ← row (λ h. message_of h id) (raised Code.internal_error)
    let after_root = message_root id (message_state updated)
    modify
        (set_message id (λ m. record m { aggregate_version = next; aggregate_root = after_root }))
    finalize_mutation sha256_json c basis (record {
      before_root = before_root;
      after_root = after_root;
      aggregate_version = next;
      created_ids = created;
      event_result = event_result;
      link = link;
    })

  -- The plan's own event, after the message's.
  unfoldable pub register_plan : Call → MessagePlan → ℕ → Tx ℕ
  register_plan c plan event = do
    let id = plan.plan_id
    let before_root = message_plan_root sha256_json id (message_plan_state plan)
    version ← aggregate_position "MessagePlan" id before_root
    modify (
        set_message_plan id (λ p. record p {
          state = MessagePlanState.registered;
          aggregate_version = version + 1;
          registered_event_id = some event;
          registered_at = some c.recorded_at;
        }))
    updated ← row (λ h. message_plan_of h id) (raised Code.internal_error)
    let after_root = message_plan_root sha256_json id (message_plan_state updated)
    modify (set_message_plan id (λ p. record p { aggregate_root = after_root }))
    append_hub_event sha256_json (record {
      request = c.request;
      capability_id = c.capability.capability_id;
      aggregate_type = "MessagePlan";
      aggregate_id = id;
      aggregate_version = version + 1;
      before_root = before_root;
      after_root = after_root;
      event_result = fields (("state", str "REGISTERED") ∷ ("messageEventId", num event) ∷ []);
      occurred_at = c.recorded_at;
      event_id = c.fresh own_draw;
    })

  -- What message.register does under its plan.
  unfoldable pub register_from : Call → MessageDraft → ℕ → ℕ → MessagePlan → Tx Response
  unfolding finish_message register_plan
  register_from c m id before_root plan = do
    sender ← row (λ h. endpoint_of h m.sender_endpoint_id) (raised Code.internal_error)
    basis ← prepare_mutation_authority c (facts (sender.project_id ∷ []) [] [] (m.mail_domain ∷ []))
    insert_message m plan.bundle sender.project_id
    response ←
        finish_message c basis id before_root 1 (id ∷ [])
          (("state", str "REGISTERED") ∷ ("bundleId", num plan.bundle.bundle_id) ∷ [])
          (λ event. set_message id (λ o. record o { registered_event_id = some event }))
    register_plan c plan response.event_id
    pure response

  -- What follows the gate, on the row that was read.
  unfoldable pub message_operation :
      Call → ℕ → ℕ → ℕ → Option Message → MessageOperation → Tx Response
  unfolding register_from
  message_operation c id before_root version found (register m bundle_id) = do
    require (λ _. not (is_some found)) (raised Code.concurrency_conflict)
    plan ←
        row (λ h. find (is_plan_for id bundle_id) h.message_plans)
          (raised Code.concurrency_conflict)
    require (λ _. same_draft plan.semantic_message m) (raised Code.concurrency_conflict)
    require (custody_verified plan.bundle.sha256) (raised Code.custody_not_verified)
    register_from c m id before_root plan
  message_operation c id before_root version found (step named op) = do
    m ← row (λ _. found) (raised Code.input_invalid)
    basis ← prepare_mutation_authority c (facts (m.project_id ∷ []) [] [] (m.mail_domain ∷ []))
    event_result ← message_change c m op
    finish_message c basis id before_root (version + 1) [] event_result (message_link c id op)

  -- The handler of the five operations.
  unfoldable pub message_mutation : Call → MessageOperation → Tx Response
  message_mutation c op = do
    let id = operation_id op
    require_id c.request id
    found ← reading (λ h. ok (message_of h id))
    let before_root = message_root id (optional_message found)
    version ← aggregate_position "SemanticMessage" id before_root
    require_aggregate c.request "SemanticMessage" id version before_root
    message_operation c id before_root version found op
