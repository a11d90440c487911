-- ===== src/Kernel/Mutations/Orderly/Mail.antt =====
-- The handlers of message plans, messages and reconciliations are orderly.
use codex_post_office.Base.{ℕ, ◌+◌, refl, String, Option, List, [], ◌∷◌, Json}
use codex_post_office.Hub.{Hub, Message, MessageDraft, BundleDraft, MessagePlan, PlannedAction}
use codex_post_office.Kernel.Authority.Call.{Call}
use codex_post_office.Kernel.Authority.Basis.{Basis}
use codex_post_office.Kernel.Authority.Actions.{actions_of}
use codex_post_office.Kernel.Grows.{
  Quiet, Quiet-pure, Quiet-reading, Quiet-modify, Quiet-bind, Grows, Grows-Quiet, Grows-bind,
  Grows-position, GrowsAt-bind-Quiet, GrowsAt-append,
}
use codex_post_office.Kernel.Steps.{Keeps, Keeps-pure, Keeps-reading, Keeps-modify, Keeps-bind}
use codex_post_office.Kernel.Mutations.Judgements.{
  Orderly, OrderlyAt, Settles, SettlesAt, Orderly-Still, OrderlyAt-Still, Orderly-gate,
  Orderly-prepare, OrderlyAt-prepare, Settles-Quiet, SettlesAt-Quiet, SettlesAt-Settles,
  Settles-then, IsStill-reading, KeepsLog, Keeps-append, finalize_mutation-Settles,
  finalize_mutation-SettlesAt,
}
use codex_post_office.Kernel.Mutations.MessagePlans.{plan_message, supersede_bundle}
use codex_post_office.Kernel.Mutations.Registration.{add_message, insert_message}
use codex_post_office.Kernel.Mutations.Messages
use codex_post_office.Kernel.Mutations.Messages.{
  MessageStep, MessageOperation, insert_attempt, message_change, message_link, finish_message,
  register_plan, register_from, message_operation, message_mutation,
}
use codex_post_office.Kernel.Mutations.Reconciliation.{
  resolve_observations, preview_reconciliation, apply_reconciliation,
}
use codex_post_office.Hub.{Attempt}

Quiet-insert_message :
    (m : MessageDraft) (b : BundleDraft) (project : ℕ) → Quiet (insert_message m b project)
unfolding insert_message add_message
Quiet-insert_message m b project = Quiet-bind _ _ (Quiet-reading _) λ _.
    Quiet-bind _ _ (Quiet-modify _ (λ h. refl)) λ _.
      Quiet-bind _ _ (Quiet-reading _)
        λ _. Quiet-bind _ _ (Quiet-reading _) λ _. Quiet-modify _ (λ h. refl)

pub Quiet-insert_attempt : (t : Attempt) → Quiet (insert_attempt t)
Quiet-insert_attempt t = Quiet-bind _ _ (Quiet-reading _) λ _. Quiet-modify _ (λ h. refl)

Quiet-resolve_observations :
    (now : ℕ) (as' : List PlannedAction) → Quiet (resolve_observations now as')
unfolding resolve_observations
Quiet-resolve_observations now [] = Quiet-pure _
Quiet-resolve_observations now (a ∷ as') =
    Quiet-bind _ _ (Quiet-reading _)
      λ _. Quiet-bind _ _ (Quiet-modify _ (λ h. refl)) λ _. Quiet-resolve_observations now as'

module _ (sha256_json : Json → ℕ) (c : Call) where
  pub plan_message-Orderly :
      (m : MessageDraft) (b : BundleDraft) → Orderly sha256_json c (plan_message sha256_json c m b)
  unfolding plan_message
  plan_message-Orderly m b = Orderly-Still _ _ _ _ (IsStill-reading _) λ _.
      Orderly-Still _ _ _ _ (IsStill-reading _) λ _. Orderly-Still _ _ _ _ (IsStill-reading _) λ _.
        Orderly-Still _ _ _ _ (IsStill-reading _) λ _.
          Orderly-Still _ _ _ _ (IsStill-reading _) λ _.
            Orderly-Still _ _ _ _ (IsStill-reading _) λ _.
              Orderly-Still _ _ _ _ (IsStill-reading _) λ _.
                Orderly-Still _ _ _ _ (IsStill-reading _) λ _.
                  Orderly-Still _ _ _ _ (IsStill-reading _) λ _.
                    Orderly-Still _ _ _ _ (IsStill-reading _) λ _.
                      Orderly-Still _ _ _ _ (IsStill-reading _) λ _.
                        Orderly-Still _ _ _ _ (IsStill-reading _) λ _.
                          Orderly-prepare _ _ _ _ λ basis.
                            Settles-Quiet _ _ _ _ _ (Quiet-reading _) λ _.
                              Settles-Quiet _ _ _ _ _ (Quiet-modify _ (λ h. refl)) λ _.
                                finalize_mutation-Settles _ _ basis _ (λ e h. (refl, refl)) refl

  pub supersede_bundle-Orderly :
      (filename sha256 : ℕ) (b : BundleDraft)
      → Orderly sha256_json c (supersede_bundle sha256_json c filename sha256 b)
  unfolding supersede_bundle
  supersede_bundle-Orderly filename sha256 b = Orderly-Still _ _ _ _ (IsStill-reading _) λ _.
      Orderly-Still _ _ _ _ (IsStill-reading _) λ _. Orderly-gate _ _ _ _ _ _ _ λ v.
        OrderlyAt-Still _ _ _ _ _ _ _ _ (IsStill-reading _) λ _.
          OrderlyAt-Still _ _ _ _ _ _ _ _ (IsStill-reading _) λ _.
            OrderlyAt-prepare _ _ _ _ _ _ _ _ λ basis.
              SettlesAt-Quiet _ _ _ _ _ _ _ _ _ (Quiet-reading _) λ _.
                SettlesAt-Quiet _ _ _ _ _ _ _ _ _ (Quiet-modify _ (λ h. refl)) λ _.
                  SettlesAt-Quiet _ _ _ _ _ _ _ _ _ (Quiet-reading _) λ _.
                    SettlesAt-Quiet _ _ _ _ _ _ _ _ _ (Quiet-modify _ (λ h. refl)) λ _.
                      finalize_mutation-SettlesAt _ _ basis _ _ _ _ v (λ e h. (refl, refl)) refl
                        refl

  Quiet-message_change :
      (m : Message) (op : MessageStep) → Quiet (message_change sha256_json c m op)
  unfolding message_change
  Quiet-message_change m (Messages.route b mailbox g) = Quiet-bind _ _ (Quiet-reading _) λ _.
      Quiet-bind _ _ (Quiet-reading _) λ _.
        Quiet-bind _ _ (Quiet-insert_attempt _)
          λ _. Quiet-bind _ _ (Quiet-modify _ (λ h. refl)) λ _. Quiet-pure _
  Quiet-message_change m (Messages.acknowledge hs) = Quiet-bind _ _ (Quiet-reading _) λ _.
      Quiet-bind _ _ (Quiet-reading _) λ _. Quiet-bind _ _ (Quiet-reading _) λ _.
        Quiet-bind _ _ (Quiet-modify _ (λ h. refl))
          λ _. Quiet-bind _ _ (Quiet-modify _ (λ h. refl)) λ _. Quiet-pure _
  Quiet-message_change m (Messages.review d r) = Quiet-bind _ _ (Quiet-reading _) λ _.
      Quiet-bind _ _ (Quiet-reading _) λ _.
        Quiet-bind _ _ (Quiet-modify _ (λ h. refl))
          λ _. Quiet-bind _ _ (Quiet-modify _ (λ h. refl)) λ _. Quiet-pure _
  Quiet-message_change m (Messages.close s) = Quiet-bind _ _ (Quiet-reading _) λ _.
      Quiet-bind _ _ (Quiet-reading _) λ _.
        Quiet-bind _ _ (Quiet-modify _ (λ h. refl))
          λ _. Quiet-bind _ _ (Quiet-modify _ (λ h. refl)) λ _. Quiet-pure _

  message_link-KeepsLog : (id : ℕ) (op : MessageStep) → KeepsLog (message_link sha256_json c id op)
  unfolding message_link
  message_link-KeepsLog id (Messages.route b m g) e h = (refl, refl)
  message_link-KeepsLog id (Messages.acknowledge hs) e h = (refl, refl)
  message_link-KeepsLog id (Messages.review d r) e h = (refl, refl)
  message_link-KeepsLog id (Messages.close s) e h = (refl, refl)

  module _ (basis : Basis) (id root : ℕ) (created : List ℕ) (r : List (String × Json))
      (link : ℕ → Hub → Hub) (keeps : KeepsLog link) where
    finish_message-Settles :
        Settles sha256_json c basis (finish_message sha256_json c basis id root 1 created r link)
    unfolding finish_message
    finish_message-Settles = Settles-Quiet _ _ _ _ _ (Quiet-reading _) λ _.
        Settles-Quiet _ _ _ _ _ (Quiet-modify _ (λ h. refl))
          λ _. finalize_mutation-Settles _ _ basis _ keeps refl

    finish_message-SettlesAt :
        (v : ℕ)
        → SettlesAt sha256_json c basis "SemanticMessage" id root v
            (finish_message sha256_json c basis id root (v + 1) created r link)
    unfolding finish_message
    finish_message-SettlesAt v = SettlesAt-Quiet _ _ _ _ _ _ _ _ _ (Quiet-reading _) λ _.
        SettlesAt-Quiet _ _ _ _ _ _ _ _ _ (Quiet-modify _ (λ h. refl))
          λ _. finalize_mutation-SettlesAt _ _ basis _ _ _ _ v keeps refl refl

  register_plan-Grows :
      (p : MessagePlan) (event : ℕ) → Grows sha256_json (register_plan sha256_json c p event)
  unfolding register_plan
  register_plan-Grows p event = Grows-position _ _ _ _ _ λ v.
      GrowsAt-bind-Quiet _ _ _ _ _ _ _ (Quiet-modify _ (λ h. refl)) λ _.
        GrowsAt-bind-Quiet _ _ _ _ _ _ _ (Quiet-reading _) λ _.
          GrowsAt-bind-Quiet _ _ _ _ _ _ _ (Quiet-modify _ (λ h. refl))
            λ _. GrowsAt-append _ _ v refl

  Keeps-register_plan :
      (p : MessagePlan) (event : ℕ) → Keeps actions_of (register_plan sha256_json c p event)
  unfolding register_plan
  Keeps-register_plan p event = Keeps-bind _ _ _ (Keeps-reading _ _) λ _.
      Keeps-bind _ _ _ (Keeps-modify _ _ (λ h. refl)) λ _.
        Keeps-bind _ _ _ (Keeps-reading _ _)
          λ _. Keeps-bind _ _ _ (Keeps-modify _ _ (λ h. refl)) λ _. Keeps-append _ _

  message_operation-OrderlyAt :
      (id root v : ℕ) (found : Option Message) (op : MessageOperation)
      → OrderlyAt sha256_json c "SemanticMessage" id root v
          (message_operation sha256_json c id root v found op)
  unfolding message_operation register_from
  message_operation-OrderlyAt id root v found (Messages.register m b) =
      OrderlyAt-Still _ _ _ _ _ _ _ _ (IsStill-reading _) λ _.
        OrderlyAt-Still _ _ _ _ _ _ _ _ (IsStill-reading _) λ plan.
          OrderlyAt-Still _ _ _ _ _ _ _ _ (IsStill-reading _) λ _.
            OrderlyAt-Still _ _ _ _ _ _ _ _ (IsStill-reading _) λ _.
              OrderlyAt-Still _ _ _ _ _ _ _ _ (IsStill-reading _) λ sender.
                OrderlyAt-prepare _ _ _ _ _ _ _ _ λ basis.
                  SettlesAt-Quiet _ _ _ _ _ _ _ _ _ (Quiet-insert_message m plan.bundle _) λ _.
                    SettlesAt-Settles _ _ _ _ _ _ _ _ (
                      Settles-then _ _ _ _ _
                        (finish_message-Settles basis id root _ _ _ (λ e h. (refl, refl)))
                        (λ r.
                          Grows-bind _ _ _ (register_plan-Grows plan r.event_id)
                            λ _. Grows-Quiet _ _ (Quiet-pure _))
                        (λ r.
                          Keeps-bind _ _ _ (Keeps-register_plan plan r.event_id)
                            λ _. Keeps-pure _ _))
  message_operation-OrderlyAt id root v found (Messages.step named op) =
      OrderlyAt-Still _ _ _ _ _ _ _ _ (IsStill-reading _) λ m.
        OrderlyAt-prepare _ _ _ _ _ _ _ _ λ basis.
          SettlesAt-Quiet _ _ _ _ _ _ _ _ _ (Quiet-message_change m op)
            λ r. finish_message-SettlesAt basis id root [] r _ (message_link-KeepsLog id op) v

  pub message_mutation-Orderly :
      (op : MessageOperation) → Orderly sha256_json c (message_mutation sha256_json c op)
  unfolding message_mutation
  message_mutation-Orderly op = Orderly-Still _ _ _ _ (IsStill-reading _) λ _.
      Orderly-Still _ _ _ _ (IsStill-reading _)
        λ found. Orderly-gate _ _ _ _ _ _ _ λ v. message_operation-OrderlyAt _ _ v found op

  pub preview_reconciliation-Orderly :
      (root : ℕ) (ids : List ℕ)
      → Orderly sha256_json c (preview_reconciliation sha256_json c root ids)
  unfolding preview_reconciliation
  preview_reconciliation-Orderly root ids = Orderly-Still _ _ _ _ (IsStill-reading _) λ _.
      Orderly-Still _ _ _ _ (IsStill-reading _) λ _. Orderly-prepare _ _ _ _ λ basis.
        Settles-Quiet _ _ _ _ _ (Quiet-reading _) λ _.
          Settles-Quiet _ _ _ _ _ (Quiet-reading _) λ _.
            Settles-Quiet _ _ _ _ _ (Quiet-modify _ (λ h. refl)) λ _.
              Settles-Quiet _ _ _ _ _ (Quiet-reading _) λ _.
                Settles-Quiet _ _ _ _ _ (Quiet-modify _ (λ h. refl))
                  λ _. finalize_mutation-Settles _ _ basis _ (λ e h. (refl, refl)) refl

  pub apply_reconciliation-Orderly :
      (id root : ℕ) → Orderly sha256_json c (apply_reconciliation sha256_json c id root)
  unfolding apply_reconciliation
  apply_reconciliation-Orderly id root = Orderly-Still _ _ _ _ (IsStill-reading _) λ _.
      Orderly-Still _ _ _ _ (IsStill-reading _) λ p. Orderly-Still _ _ _ _ (IsStill-reading _) λ _.
        Orderly-gate _ _ _ _ _ _ _ λ v. OrderlyAt-Still _ _ _ _ _ _ _ _ (IsStill-reading _) λ _.
          OrderlyAt-prepare _ _ _ _ _ _ _ _ λ basis.
            SettlesAt-Quiet _ _ _ _ _ _ _ _ _ (Quiet-resolve_observations _ p.planned_actions) λ _.
              SettlesAt-Quiet _ _ _ _ _ _ _ _ _ (Quiet-modify _ (λ h. refl)) λ _.
                SettlesAt-Quiet _ _ _ _ _ _ _ _ _ (Quiet-reading _) λ _.
                  SettlesAt-Quiet _ _ _ _ _ _ _ _ _ (Quiet-modify _ (λ h. refl)) λ _.
                    finalize_mutation-SettlesAt _ _ basis _ _ _ _ v (λ e h. (refl, refl)) refl refl
