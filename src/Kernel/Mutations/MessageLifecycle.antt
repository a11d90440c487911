-- ===== src/Kernel/Mutations/MessageLifecycle.antt =====
-- The five message operations follow the lifecycle of messages.
use codex_post_office.Base.{
  found-some, map-update, map-snoc, ℕ, ◌+◌, ◌≡◌, refl, ◌∙◌, ap, sym, String, true, Option, none,
  some, List, [], ◌∷◌, ◌++◌, Json, inl, inr, arith, ok, is_some, not, found,
}
use codex_post_office.Hub.{Hub, Message, MessageState, MessageDraft, BundleDraft, MessagePlan}
use codex_post_office.Kernel.Steps.{Keeps, Keeps-pure, Keeps-reading, Keeps-modify, Keeps-bind}
use codex_post_office.Kernel.Moves.{
  Moves, Moves-skip, Moves-reading, Moves-guard, Moves-then, Moves-modify,
}
use codex_post_office.Kernel.Authority.Call.{Call}
use codex_post_office.Kernel.Authority.Basis.{Basis}
use codex_post_office.Kernel.Authority.Finalize.{Response}
use codex_post_office.Kernel.Authority.Untouched.{Keeps-prepare, Keeps-finalize, Keeps-append_event}
use codex_post_office.Kernel.Mutations.Messages
use codex_post_office.Kernel.Mutations.Messages.{
  MessageStep, MessageOperation, insert_attempt, message_change, message_link, finish_message,
  register_plan, register_from, message_operation, operation_id, message_mutation,
}
use codex_post_office.Kernel.Mutations.Registration.{
  basis_columns, grant_column, new_message, add_message, insert_message,
}
use codex_post_office.Kernel.Mutations.MessageStates.{
  untouched, Keeps-insert_attempt, state_row, states_of, state_in, moved, Follows, IsMessageStep,
  routed-from, acknowledged-from, reviewed-from, closed-from, map-moved, state_column,
  state_in-found, found-id, routed, acknowledged, reviewed_acknowledged, reviewed_response, closed,
  enters, moves,
}
use mathlib.Core.Path.{subst}

-- The operation takes the message from its state to one that follows.
abbrev Carried : Message → MessageStep → List (ℕ × MessageState) → List (ℕ × MessageState) → Type 0
Carried m op xs ys = (t : MessageState) × Follows op m.state t × (ys ≡ moved m.message_id t xs)

abbrev Entered : MessageDraft → List (ℕ × MessageState) → List (ℕ × MessageState) → Type 0
Entered m xs ys = ys ≡ xs ++ (m.message_id, MessageState.registered) ∷ []

add_message-states :
    (m : MessageDraft) (project : ℕ) (h : Hub)
    → Entered m (states_of h) (states_of (add_message m project h))
unfolding add_message
add_message-states m project h = map-snoc state_row h.messages (
    new_message m project
      (basis_columns m.authority_basis_id (grant_column h m.authority_basis_id)))

insert_message-Moves :
    (m : MessageDraft) (b : BundleDraft) (project : ℕ)
    → Moves states_of (Entered m) (insert_message m b project)
unfolding insert_message
insert_message-Moves m b project = Moves-skip states_of (Entered m) _ _ (Keeps-reading _ _) λ _.
    Moves-then states_of (Entered m) _ _
      (Moves-modify states_of (Entered m) (add_message m project) (add_message-states m project))
      λ _.
        Keeps-bind _ _ _ (Keeps-reading _ _)
          λ _. Keeps-bind _ _ _ (Keeps-reading _ _) λ _. Keeps-modify _ _ (λ h. refl)

module _ (sha256_json : Json → ℕ) (c : Call) where
  message_change-Moves :
      (m : Message) (op : MessageStep)
      → Moves states_of (Carried m op) (message_change sha256_json c m op)
  unfolding message_change
  message_change-Moves m (Messages.route b mailbox g) = Moves-guard _ _ _ _ _ λ fits.
      Moves-skip _ _ _ _ (Keeps-reading _ _) λ _. Moves-skip _ _ _ _ (Keeps-insert_attempt _) λ _.
        Moves-then _ _ _ _
          (Moves-modify _ _ _ λ h. (
            MessageState.custody_recorded,
            subst (λ s. Follows (Messages.route b mailbox g) s MessageState.custody_recorded)
                (sym (routed-from m.state (ground (arith, fits)))) (routed b mailbox g),
            map-moved m.message_id MessageState.custody_recorded h.messages,
          ))
          λ _. Keeps-pure _ _
  message_change-Moves m (Messages.acknowledge hs) = Moves-guard _ _ _ _ _ λ fits.
      Moves-skip _ _ _ _ (Keeps-reading _ _) λ _. Moves-skip _ _ _ _ (Keeps-reading _ _) λ _.
        Moves-skip _ _ _ _ (Keeps-modify _ _ (λ h. refl)) λ _.
          Moves-then _ _ _ _
            (Moves-modify _ _ _ λ h. (
              MessageState.acknowledged,
              subst (λ s. Follows (Messages.acknowledge hs) s MessageState.acknowledged)
                  (sym (acknowledged-from m.state fits)) (acknowledged hs),
              map-moved m.message_id MessageState.acknowledged h.messages,
            ))
            λ _. Keeps-pure _ _
  message_change-Moves m (Messages.review d r) = Moves-guard _ _ _ _ _ λ fits.
      Moves-skip _ _ _ _ (Keeps-reading _ _) λ _.
        Moves-skip _ _ _ _ (Keeps-modify _ _ (λ h. refl)) λ _.
          Moves-then _ _ _ _
            (Moves-modify _ _ _ λ h. (
              MessageState.reviewed,
              elim (reviewed-from m.state fits) [
                | inl s ↦
                    subst (λ s. Follows (Messages.review d r) s MessageState.reviewed) (sym s)
                      (reviewed_acknowledged d r)
                | inr s ↦
                    subst (λ s. Follows (Messages.review d r) s MessageState.reviewed) (sym s)
                      (reviewed_response d r)
              ],
              map-moved m.message_id MessageState.reviewed h.messages,
            ))
            λ _. Keeps-pure _ _
  message_change-Moves m (Messages.close s) = Moves-guard _ _ _ _ _ λ fits.
      Moves-skip _ _ _ _ (Keeps-reading _ _) λ _.
        Moves-skip _ _ _ _ (Keeps-modify _ _ (λ h. refl)) λ _.
          Moves-then _ _ _ _
            (Moves-modify _ _ _ λ h. (
              MessageState.closed,
              subst (λ t. Follows (Messages.close s) t MessageState.closed)
                  (sym (closed-from m.state fits)) (closed s),
              map-moved m.message_id MessageState.closed h.messages,
            ))
            λ _. Keeps-pure _ _

  message_link-states :
      (id : ℕ) (op : MessageStep) (e : ℕ) (h : Hub)
      → states_of (message_link sha256_json c id op e h) ≡ states_of h
  unfolding message_link
  message_link-states id (Messages.route b m g) e h = refl
  message_link-states id (Messages.acknowledge hs) e h = refl
  message_link-states id (Messages.review d r) e h = refl
  message_link-states id (Messages.close s) e h = refl

  Keeps-finish_message :
      (basis : Basis) (id root next : ℕ) (created : List ℕ) (r : List (String × Json))
      (link : ℕ → Hub → Hub)
      → ((e : ℕ) (h : Hub) → states_of (link e h) ≡ states_of h)
      → Keeps states_of (finish_message sha256_json c basis id root next created r link)
  unfolding finish_message
  Keeps-finish_message basis id root next created r link same =
      Keeps-bind _ _ _ (Keeps-reading _ _) λ _.
        Keeps-bind _ _ _ (Keeps-modify _ _ (λ h. map-update state_row _ _ h.messages (λ m. refl)))
          λ _. Keeps-finalize _ untouched sha256_json c basis _ same

  Keeps-register_plan :
      (p : MessagePlan) (event : ℕ) → Keeps states_of (register_plan sha256_json c p event)
  unfolding register_plan
  Keeps-register_plan p event = Keeps-bind _ _ _ (Keeps-reading _ _) λ _.
      Keeps-bind _ _ _ (Keeps-modify _ _ (λ h. refl)) λ _. Keeps-bind _ _ _ (Keeps-reading _ _) λ _.
        Keeps-bind _ _ _ (Keeps-modify _ _ (λ h. refl))
          λ _. Keeps-append_event _ untouched sha256_json _

  -- What is known of the row that the handler has found.
  abbrev Known : ℕ → Option Message → List (ℕ × MessageState) → Type 0
  Known id found xs = state_in id xs ≡ state_column found

  is_none : (o : Option Message) → not (is_some o) ≡ true → o ≡ none
  is_none none e = refl
  is_none (some m) e = absurd (ground arith)

  message_operation-Moves :
      (id root v : ℕ) (row : Option Message) (op : MessageOperation)
      → operation_id op ≡ id
      → ((m : Message) → row ≡ some m → m.message_id ≡ id)
      → Moves states_of
          (λ xs ys. Known id row xs → IsMessageStep op xs ys)
          (message_operation sha256_json c id root v row op)
  unfolding message_operation register_from
  message_operation-Moves id root v row (Messages.register m b) same named =
      Moves-guard _ _ _ _ _ λ missing. record {
        at = λ h r g e known.
            enters m b _ _
              (subst (λ i. state_in i (states_of h) ≡ none) (sym same)
                (known ∙ ap state_column (is_none row missing)))
              ((Moves-skip states_of (Entered m) _ _ (Keeps-reading _ _) λ plan.
                  Moves-skip _ _ _ _ (Keeps-reading _ _) λ _.
                    Moves-skip _ _ _ _ (Keeps-reading _ _) λ _.
                      Moves-skip _ _ _ _ (Keeps-reading _ _) λ sender.
                        Moves-skip _ _ _ _ (Keeps-prepare _ untouched c _) λ basis.
                          Moves-then _ _ _ _ (insert_message-Moves m plan.bundle sender.project_id)
                            λ _.
                              Keeps-bind _ _ _
                                (Keeps-finish_message basis id root 1 _ _ _
                                  (λ e h. map-update state_row _ _ h.messages (λ o. refl)))
                                λ r.
                                  Keeps-bind _ _ _ (Keeps-register_plan plan r.event_id)
                                    λ _. Keeps-pure _ _).at
                h r g e);
      }
  message_operation-Moves id root v row (Messages.step n op) same named =
      Moves-reading _ _ _ _ λ h m r b g e known.
        let is_m = found-some row _ m r in
        let (t, follows, done) =
          (Moves-skip states_of (Carried m op) _ _ (Keeps-prepare _ untouched c _) λ basis.
              Moves-then _ _ _ _ (message_change-Moves m op) λ r.
                Keeps-finish_message basis id root (v + 1) [] r _ (message_link-states id op)).at
            h b g e in
        moves n op m.state t _ _
          (subst (λ i. state_in i (states_of h) ≡ some m.state) (sym same)
            (known ∙ ap state_column is_m))
          follows
          (subst (λ i. states_of g ≡ moved i t (states_of h)) (named m is_m ∙ sym same) done)

-- Every message operation that succeeds follows the lifecycle of messages: registration enters a
-- message that was not there as REGISTERED, and each other operation takes its message from a state
-- that the lifecycle allows to the one that follows, and leaves the state of every other message.
pub message_mutation-lifecycle :
    (sha256_json : Json → ℕ) (c : Call) (op : MessageOperation) (h g : Hub) (r : Response)
    → message_mutation sha256_json c op h ≡ ok (r, g)
    → IsMessageStep op (states_of h) (states_of g)
unfolding message_mutation
message_mutation-lifecycle sha256_json c op h g r done =
    (Moves-skip states_of (IsMessageStep op) _ _ (Keeps-reading _ _) λ _.
        Moves-reading _ _ _ _ λ h2 row found b g2 e.
          (Moves-skip _ (λ xs ys. Known sha256_json c id row xs → IsMessageStep op xs ys) _ _
              (Keeps-reading _ _)
              λ v. Moves-skip _ _ _ _ (Keeps-reading _ _) λ _.
                message_operation-Moves sha256_json c id _ v row op refl
                  (λ m is_m. found-id id h2.messages m (ground (arith, found, is_m)))).at
            h2 b g2 e (state_in-found id h2.messages ∙ ap state_column (ground (arith, found)))).at
      h r g done
  where
    id : ℕ
    id = operation_id op
