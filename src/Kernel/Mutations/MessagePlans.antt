-- ===== src/Kernel/Mutations/MessagePlans.antt =====
-- message.plan and bundle.supersedeBeforeRegistration.
use codex_post_office.Base.{
  ℕ, ◌+◌, Bool, true, false, not, ◌&&◌, ◌||◌, Option, none, some, [], ◌∷◌, ◌++◌, Json, null, num,
  str, any, find, update, ◌==◌, is_some, raised, integrity_error, Code,
}
use codex_post_office.Hub.{
  Hub, MessageDraft, BundleDraft, MessagePlan, MessagePlanState, MailDomain, CycleState, is_active,
}
use codex_post_office.Kernel.Transaction.{Tx, require, row, modify, ◌>>=◌, ◌>>◌}
use codex_post_office.Kernel.Documents.Mail.{planned_content, message_plan_state}
use codex_post_office.Kernel.Events.Query.{aggregate_root, aggregate_position}
use codex_post_office.Kernel.Authority.Call.{Call}
use codex_post_office.Kernel.Authority.Basis.{action_of, grant_of, prepare_mutation_authority}
use codex_post_office.Kernel.Authority.Finalize.{Response, finalize_mutation}
use codex_post_office.Kernel.Mutations.Common.{
  endpoint_of, generation_of, cycle_of, facts, no_link, require_aggregate,
}

abbrev pub is_message_plan : ℕ → MessagePlan → Bool
is_message_plan id p = p.plan_id == id

abbrev pub message_plan_of : Hub → ℕ → Option MessagePlan
message_plan_of h id = find (is_message_plan id) h.message_plans

abbrev pub set_message_plan : ℕ → (MessagePlan → MessagePlan) → Hub → Hub
set_message_plan id change h = record h {
  message_plans = update (is_message_plan id) change h.message_plans;
}

abbrev pub is_planned : MessagePlanState → Bool
is_planned MessagePlanState.planned = true
is_planned _ = false

-- `state in {"OPEN", "ACTIVE"}`
abbrev takes_messages : CycleState → Bool
takes_messages CycleState.opened = true
takes_messages CycleState.active = true
takes_messages _ = false

abbrev mail_domain_of : Hub → ℕ → Option MailDomain
mail_domain_of h id = find (λ (d : MailDomain). d.mail_domain == id) h.mail_domains

-- the basis of the message is a known grant or action
abbrev basis_known : ℕ → Hub → Bool
basis_known id h = is_some (grant_of h id) || is_some (action_of h id)

-- a row that the UNIQUE constraints on the message and the bundle keep out
abbrev plan_clashes : ℕ → ℕ → Hub → Bool
plan_clashes message bundle h =
    any (λ p. p.message_id == message || p.bundle_id == bundle) h.message_plans

abbrev new_message_plan : ℕ → MessageDraft → BundleDraft → ℕ → MessagePlan
new_message_plan id m b plan_root = record {
  plan_id = id;
  message_id = m.message_id;
  bundle_id = b.bundle_id;
  semantic_message = m;
  bundle = b;
  plan_root = plan_root;
  state = MessagePlanState.planned;
  aggregate_version = 1;
  aggregate_root = 0;
  created_event_id = none;
  registered_event_id = none;
  registered_at = none;
}

-- the planned bundle of this name and digest
abbrev supersedable : ℕ → ℕ → MessagePlan → Bool
supersedable filename sha256 p =
    is_planned p.state && p.bundle.canonical_filename == filename && p.bundle.sha256 == sha256

module _ (sha256_json : Json → ℕ) where
  abbrev pub message_plan_root : ℕ → Json → ℕ
  message_plan_root id detail = aggregate_root sha256_json "MessagePlan" id detail

  -- message.plan
  unfoldable pub plan_message : Call → MessageDraft → BundleDraft → Tx Response
  plan_message c m b = do
    let id = c.request.aggregate_id
    require (λ h. not (is_some (message_plan_of h id))) (raised Code.concurrency_conflict)
    require_aggregate c.request "MessagePlan" id 0 (message_plan_root id null)
    require (λ _. b.semantic_message_id == m.message_id) (raised Code.input_invalid)
    sender ← row (λ h. endpoint_of h m.sender_endpoint_id) (raised Code.input_invalid)
    recipient ←
        row (λ h. generation_of h m.recipient_mailbox_id m.recipient_generation)
          (raised Code.input_invalid)
    require (λ _. is_active sender.status && is_active recipient.status) (raised Code.input_invalid)
    recipient_endpoint ← row (λ h. endpoint_of h recipient.endpoint_id) (raised Code.input_invalid)
    domain ← row (λ h. mail_domain_of h m.mail_domain) (raised Code.input_invalid)
    require
        (λ _.
          sender.project_id == recipient_endpoint.project_id
          && domain.project_id == sender.project_id)
        (raised Code.input_invalid)
    cycle ← row (λ h. cycle_of h m.semantic_cycle_id) (raised Code.input_invalid)
    require (λ _. cycle.project_id == sender.project_id && takes_messages cycle.state)
        (raised Code.input_invalid)
    require (basis_known m.authority_basis_id) (raised Code.authorization_denied)
    basis ← prepare_mutation_authority c (facts (sender.project_id ∷ []) [] [] (m.mail_domain ∷ []))
    let draft = new_message_plan id m b (sha256_json (planned_content m b))
    let after_root = message_plan_root id (message_plan_state draft)
    require (λ h. not (plan_clashes m.message_id b.bundle_id h)) integrity_error
    modify λ h. record h {
      message_plans = h.message_plans ++ record draft { aggregate_root = after_root } ∷ [];
    }
    finalize_mutation sha256_json c basis (record {
      before_root = message_plan_root id null;
      after_root = after_root;
      aggregate_version = 1;
      created_ids = id ∷ [];
      event_result =
          ("state", str "PLANNED")
          ∷ ("messageId", num m.message_id)
          ∷ ("bundleId", num b.bundle_id)
          ∷ [];
      link = λ event. set_message_plan id (λ p. record p { created_event_id = some event });
    })

  -- bundle.supersedeBeforeRegistration
  unfoldable pub supersede_bundle : Call → ℕ → ℕ → BundleDraft → Tx Response
  supersede_bundle c filename sha256 replacement = do
    plan ←
        row (λ h. find (supersedable filename sha256) h.message_plans) (raised Code.input_invalid)
    let id = plan.plan_id
    require (λ _. c.request.aggregate_id == id) (raised Code.input_invalid)
    let before_root = message_plan_root id (message_plan_state plan)
    version ← aggregate_position "MessagePlan" id before_root
    require_aggregate c.request "MessagePlan" id version before_root
    let message = plan.semantic_message
    require
        (λ _.
          replacement.semantic_message_id == message.message_id
          && not (replacement.bundle_id == plan.bundle_id))
        (raised Code.input_invalid)
    sender ← row (λ h. endpoint_of h message.sender_endpoint_id) (raised Code.internal_error)
    basis ←
        prepare_mutation_authority c
          (facts (sender.project_id ∷ []) [] [] (message.mail_domain ∷ []))
    require
        (λ h. not (
          any (λ p. p.bundle_id == replacement.bundle_id && not (p.plan_id == id)) h.message_plans))
        integrity_error
    modify (
        set_message_plan id (λ p. record p {
          bundle_id = replacement.bundle_id;
          bundle = replacement;
          plan_root = sha256_json (planned_content message replacement);
          aggregate_version = version + 1;
        }))
    updated ← row (λ h. message_plan_of h id) (raised Code.internal_error)
    let after_root = message_plan_root id (message_plan_state updated)
    modify (set_message_plan id (λ p. record p { aggregate_root = after_root }))
    finalize_mutation sha256_json c basis (record {
      before_root = before_root;
      after_root = after_root;
      aggregate_version = version + 1;
      created_ids = replacement.bundle_id ∷ [];
      event_result =
          ("state", str "PLANNED")
          ∷ ("supersededBundleId", num plan.bundle_id)
          ∷ ("replacementBundleId", num replacement.bundle_id)
          ∷ [];
      link = no_link;
    })
