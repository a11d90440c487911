-- ===== src/Kernel/Mutations/MessageStates.antt =====
-- The states of the messages, the relation by which the five message operations carry them on, and
-- the updates of the table as updates of the states.
use codex_post_office.Base.{
  ℕ, ◌≡◌, refl, ap, true, Option, none, some, List, [], ◌∷◌, ◌++◌, map, find, update, if◌then◌else◌,
  ◌==◌, ◌⊎◌, inl, inr, Bool-cases, arith,
}
use codex_post_office.Kernel.Steps.{Keeps, Keeps-reading, Keeps-modify, Keeps-bind}
use codex_post_office.Kernel.Authority.Untouched.{Untouched}
use codex_post_office.Hub.{Attempt, Decision, Hub, Message, MessageState, MessageDraft}
use codex_post_office.Kernel.Mutations.Common.{is_message}
use codex_post_office.Kernel.Mutations.Messages
use codex_post_office.Kernel.Mutations.Messages.{
  MessageStep, MessageOperation, set_state, is_registered, is_delivered, is_reviewable, is_reviewed,
  insert_attempt, message_change, message_link, finish_message, register_plan, message_operation,
  message_mutation,
}

-- What the lifecycle is about: the state of each message.
abbrev pub state_row : Message → ℕ × MessageState
state_row m = (m.message_id, m.state)

abbrev pub states_of : Hub → List (ℕ × MessageState)
states_of h = map state_row h.messages

-- the state of a message
abbrev pub state_in : ℕ → List (ℕ × MessageState) → Option MessageState
state_in id [] = none
state_in id ((i, s) ∷ rows) = if i == id then some s else state_in id rows

-- the message is in another state, and all else is as it was
abbrev pub moved : ℕ → MessageState → List (ℕ × MessageState) → List (ℕ × MessageState)
moved id t [] = []
moved id t ((i, s) ∷ rows) = (i, if i == id then t else s) ∷ moved id t rows

-- the state from which each operation takes a message, and the one to which it takes it
pub data Follows : MessageStep → MessageState → MessageState → Type 0 where
  routed :
      (b m g : ℕ)
      → Follows (Messages.route b m g) MessageState.registered MessageState.custody_recorded
  acknowledged :
      (hs : List ℕ)
      → Follows (Messages.acknowledge hs) MessageState.delivered MessageState.acknowledged
  reviewed_acknowledged :
      (d : Decision) (r : ℕ)
      → Follows (Messages.review d r) MessageState.acknowledged MessageState.reviewed
  reviewed_response :
      (d : Decision) (r : ℕ)
      → Follows (Messages.review d r) MessageState.response_returned MessageState.reviewed
  closed : (s : ℕ) → Follows (Messages.close s) MessageState.reviewed MessageState.closed

-- What an operation does to the states: it adds a message that was not there, or carries one on.
pub data IsMessageStep
    : MessageOperation → List (ℕ × MessageState) → List (ℕ × MessageState) → Type 0 where
  enters :
      (m : MessageDraft) (b : ℕ) (xs ys : List (ℕ × MessageState))
      → state_in m.message_id xs ≡ none
      → ys ≡ xs ++ (m.message_id, MessageState.registered) ∷ []
      → IsMessageStep (Messages.register m b) xs ys
  moves :
      (id : ℕ) (op : MessageStep) (s t : MessageState) (xs ys : List (ℕ × MessageState))
      → state_in id xs ≡ some s
      → Follows op s t
      → ys ≡ moved id t xs
      → IsMessageStep (Messages.step id op) xs ys

pub routed-from : (s : MessageState) → is_registered s ≡ true → s ≡ MessageState.registered
routed-from s h = ground (arith, h)

pub acknowledged-from : (s : MessageState) → is_delivered s ≡ true → s ≡ MessageState.delivered
acknowledged-from s h = ground (arith, h)

pub reviewed-from :
    (s : MessageState)
    → is_reviewable s ≡ true
    → (s ≡ MessageState.acknowledged) ⊎ (s ≡ MessageState.response_returned)
reviewed-from s h = ground (arith, h)

pub closed-from : (s : MessageState) → is_reviewed s ≡ true → s ≡ MessageState.reviewed
closed-from s h = ground (arith, h)

-- the updates of the table, seen on the states
pub map-moved :
    (id : ℕ) (t : MessageState) (ms : List Message)
    → map state_row (update (is_message id) (λ m. record m { state = t }) ms)
      ≡ moved id t (map state_row ms)
map-moved id t [] = refl
map-moved id t (m ∷ ms) = elim (Bool-cases (is_message id m)) [
  | inl mine ↦ rw mine (ap (λ rest. (m.message_id, t) ∷ rest) (map-moved id t ms))
  | inr other ↦ rw other (ap (λ rest. state_row m ∷ rest) (map-moved id t ms))
]

abbrev pub state_column : Option Message → Option MessageState
state_column none = none
state_column (some m) = some m.state

pub state_in-found :
    (id : ℕ) (ms : List Message)
    → state_in id (map state_row ms) ≡ state_column (find (is_message id) ms)
state_in-found id [] = refl
state_in-found id (m ∷ ms) = elim (Bool-cases (is_message id m)) [
  | inl mine ↦ rw mine refl
  | inr other ↦ rw other (state_in-found id ms)
]

pub found-id :
    (id : ℕ) (ms : List Message) (m : Message)
    → find (is_message id) ms ≡ some m
    → m.message_id ≡ id
found-id id [] m e = absurd (ground arith)
found-id id (n ∷ ms) m e = elim (Bool-cases (is_message id n)) [
  | inl mine ↦ ground (arith, mine)
  | inr other ↦ found-id id ms m (ground (arith, other))
]

-- what the steps of a mutation, and the insertion of an attempt, leave alone
pub untouched : Untouched states_of
untouched = record {
  by_actions = λ h as'. refl;
  by_grants = λ h gs. refl;
  by_events = λ h es. refl;
}

pub Keeps-insert_attempt : (t : Attempt) → Keeps states_of (insert_attempt t)
Keeps-insert_attempt t = Keeps-bind _ _ _ (Keeps-reading _ _) λ _. Keeps-modify _ _ (λ h. refl)
