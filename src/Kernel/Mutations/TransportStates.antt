-- ===== src/Kernel/Mutations/TransportStates.antt =====
-- What the operations on transport attempts do to the states of messages.
use codex_post_office.Base.{
  found-some, map-update, ℕ, ◌≡◌, refl, Option, none, some, List, Json, ok, ◌==◌, Bool-cases, inl,
  inr,
}
use codex_post_office.Hub.{Hub, Attempt, Dispatch, MessageState}
use codex_post_office.Kernel.Documents.{message_state}
use codex_post_office.Kernel.Steps.{Keeps, Keeps-pure, Keeps-reading, Keeps-modify, Keeps-bind}
use codex_post_office.Kernel.Moves.{Moves, Moves-skip, Moves-reading, Moves-then, Moves-modify}
use codex_post_office.Kernel.Authority.Authorised.{whole}
use codex_post_office.Kernel.Authority.Call.{Call}
use codex_post_office.Kernel.Authority.Finalize.{Response}
use codex_post_office.Kernel.Authority.Untouched.{Keeps-prepare, Keeps-finalize, Keeps-append_event}
use codex_post_office.Kernel.Mutations.Messages.{message_root}
use codex_post_office.Kernel.Mutations.MessageStates.{
  untouched, Keeps-insert_attempt, state_row, states_of, moved, map-moved,
}
use codex_post_office.Kernel.Mutations.Transports
use codex_post_office.Kernel.Mutations.Transports.{
  TransportOperation, transport_of, set_dispatch, transport_change, record_message,
  transport_operation, transport_mutation,
}

-- The effect of an operation on the states, given the message of the attempt: a retry makes it
-- CUSTODY_RECORDED, a quarantine QUARANTINED, whatever its state was.
abbrev pub effect : TransportOperation → ℕ → List (ℕ × MessageState) → List (ℕ × MessageState)
effect Transports.retry id xs = moved id MessageState.custody_recorded xs
effect (Transports.quarantine reason) id xs = moved id MessageState.quarantined xs
effect (Transports.tombstone_duplicate canonical) id xs = xs

set_dispatch-states :
    (d : Option Dispatch) (u : Dispatch → Dispatch) (h : Hub)
    → states_of (set_dispatch d u h) ≡ states_of h
set_dispatch-states none u h = refl
set_dispatch-states (some d) u h = refl

abbrev Affected :
    TransportOperation → Attempt → List (ℕ × MessageState) → List (ℕ × MessageState) → Type 0
Affected op t xs ys = ys ≡ effect op t.message_id xs

module _ (c : Call) (t : Attempt) (d : Option Dispatch) where
  transport_change-Moves :
      (op : TransportOperation) → Moves states_of (Affected op t) (transport_change c t d op)
  unfolding transport_change
  transport_change-Moves Transports.retry =
      Moves-skip _ (Affected Transports.retry t) _ _ (Keeps-reading _ _) λ _.
        Moves-skip _ _ _ _ (Keeps-reading _ _) λ _. Moves-skip _ _ _ _ (Keeps-insert_attempt _) λ _.
          Moves-skip _ _ _ _ (Keeps-modify _ _ (set_dispatch-states d _)) λ _.
            Moves-then _ _ _ _
              (Moves-modify _ _ _
                (λ h. map-moved t.message_id MessageState.custody_recorded h.messages))
              λ _. Keeps-pure _ _
  transport_change-Moves (Transports.quarantine reason) =
      Moves-skip _ (Affected (Transports.quarantine reason) t) _ _ (Keeps-reading _ _) λ _.
        Moves-skip _ _ _ _ (Keeps-modify _ _ (λ h. refl)) λ _.
          Moves-skip _ _ _ _ (Keeps-modify _ _ (set_dispatch-states d _)) λ _.
            Moves-then _ _ _ _
              (Moves-modify _ _ _ (λ h. map-moved t.message_id MessageState.quarantined h.messages))
              λ _. Keeps-pure _ _
  transport_change-Moves (Transports.tombstone_duplicate canonical) =
      Moves-skip _ (Affected (Transports.tombstone_duplicate canonical) t) _ _ (Keeps-reading _ _)
        λ _. Moves-skip _ _ _ _ (Keeps-reading _ _) λ _. Moves-skip _ _ _ _ (Keeps-reading _ _) λ _.
          Moves-skip _ _ _ _ (Keeps-reading _ _) λ _.
            Moves-then _ _ _ _ (Moves-modify _ _ _ (λ h. refl))
              λ _. Keeps-bind _ _ _ (Keeps-modify _ _ (set_dispatch-states d _)) λ _. Keeps-pure _ _

Keeps-record_message :
    (sha256_json : Json → ℕ) (c : Call) (id message before v event : ℕ)
    → Keeps states_of (record_message sha256_json c id message before v event)
unfolding record_message
Keeps-record_message sha256_json c id message before v event =
    Keeps-bind _ _ _ (Keeps-reading _ _) λ m.
      elim (Bool-cases (message_root sha256_json message (message_state m) == before)) [
        | inl same ↦ rw same (Keeps-pure _ _)
        | inr changed ↦ rw changed (
            Keeps-bind _ _ _
              (Keeps-modify _ _ (λ h. map-update state_row _ _ h.messages (λ o. refl)))
              λ _.
                Keeps-bind _ _ _ (Keeps-append_event _ untouched sha256_json _) λ _. Keeps-pure _ _)
      ]

-- An operation on a transport attempt sets the state of the attempt's message without regard to the
-- state that the message is in: a quarantine makes it QUARANTINED and a retry CUSTODY_RECORDED, also
-- when it has been delivered through another attempt, or is CLOSED; a tombstone changes no message.
-- No other message changes its state.
pub transport_mutation-states :
    (sha256_json : Json → ℕ) (c : Call) (id : ℕ) (op : TransportOperation) (h g : Hub)
    (r : Response)
    → transport_mutation sha256_json c id op h ≡ ok (r, g)
    → (t : Attempt) × (transport_of h id ≡ some t)
      × (states_of g ≡ effect op t.message_id (states_of h))
unfolding transport_mutation transport_operation
transport_mutation-states sha256_json c id op h g r done =
    (Moves-skip whole (λ x y. IsAffected x y) _ _ (Keeps-reading _ _)
        λ _. Moves-reading _ _ _ _ λ h1 t is_t b g1 e. (
          t,
          found-some _ _ t is_t,
          (Moves-skip states_of (Affected op t) _ _ (Keeps-reading _ _) λ d.
                Moves-skip _ _ _ _ (Keeps-reading _ _) λ v.
                  Moves-skip _ _ _ _ (Keeps-reading _ _) λ _.
                    Moves-skip _ _ _ _ (Keeps-reading _ _) λ m.
                      Moves-skip _ _ _ _ (Keeps-reading _ _) λ w.
                        Moves-skip _ _ _ _ (Keeps-prepare _ untouched c _) λ basis.
                          Moves-then _ _ _ _ (transport_change-Moves c t d op) λ _.
                            Keeps-bind _ _ _ (Keeps-reading _ _) λ _.
                              Keeps-bind _ _ _ (Keeps-reading _ _) λ _.
                                Keeps-bind _ _ _
                                  (Keeps-finalize _ untouched sha256_json c basis _ (λ e h. refl))
                                  λ _.
                                    Keeps-bind _ _ _ (Keeps-record_message sha256_json c id _ _ w _)
                                      λ _. Keeps-pure _ _).at
              h1 b g1 e,
        )).at
      h r g done
  where
    IsAffected : Hub → Hub → Type 0
    IsAffected x y =
        (t : Attempt) × (transport_of x id ≡ some t)
        × (states_of y ≡ effect op t.message_id (states_of x))
