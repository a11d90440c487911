-- ===== src/Kernel/Mutations/Transports.antt =====
-- transport.retry, transport.quarantine and transport.tombstoneDuplicate.
use codex_post_office.Base.{
  ℕ, ◌+◌, String, Bool, true, false, not, ◌&&◌, ◌||◌, Option, none, some, List, [], ◌∷◌, Json, num,
  str, fields, find, select, update, leb, ◌==◌, if◌then◌else◌, ok, raised, Code,
}
use codex_post_office.Hub.{
  Hub, Attempt, AttemptState, Dispatch, DispatchState, Message, MessageState, message_state_text,
}
use codex_post_office.Kernel.Transaction.{Tx, pure, require, reading, row, modify, ◌>>=◌, ◌>>◌}
use codex_post_office.Kernel.Documents.{message_state}
use codex_post_office.Kernel.Documents.Mail.{transport_state}
use codex_post_office.Kernel.Events.Query.{aggregate_root, aggregate_position}
use codex_post_office.Kernel.Events.Append.{append_hub_event}
use codex_post_office.Kernel.Authority.Call.{Call}
use codex_post_office.Kernel.Authority.Basis.{prepare_mutation_authority}
use codex_post_office.Kernel.Authority.Finalize.{Response, finalize_mutation}
use codex_post_office.Kernel.Mutations.Common.{
  message_of, set_message, own_draw, facts, no_link, require_aggregate, require_id,
}
use codex_post_office.Kernel.Mutations.Messages.{message_root, insert_attempt, set_state}

-- The operation with its parameters.
pub data TransportOperation : Type 0 where
  retry : TransportOperation
  quarantine : String → TransportOperation
  tombstone_duplicate : ℕ → TransportOperation

abbrev pub is_attempt : ℕ → Attempt → Bool
is_attempt id t = t.transport_attempt_id == id

abbrev pub transport_of : Hub → ℕ → Option Attempt
transport_of h id = find (is_attempt id) h.attempts

abbrev pub dispatch_for : Hub → ℕ → Option Dispatch
dispatch_for h id = find (λ (d : Dispatch). d.transport_attempt_id == id) h.dispatches

abbrev is_failed : AttemptState → Bool
is_failed AttemptState.failed_retryable = true
is_failed _ = false

-- `state in {"WAITING_FOR_RECIPIENT", "RECONCILIATION_REQUIRED", "TERMINAL_FAILURE"}`
abbrev is_stuck : DispatchState → Bool
is_stuck DispatchState.waiting_for_recipient = true
is_stuck DispatchState.reconciliation_required = true
is_stuck DispatchState.terminal_failure = true
is_stuck _ = false

abbrev stuck_dispatch : Option Dispatch → Bool
stuck_dispatch none = false
stuck_dispatch (some d) = is_stuck d.state

-- `state in {"RECEIPTED", "TOMBSTONED_DUPLICATE"}`
abbrev pub is_settled : AttemptState → Bool
is_settled AttemptState.receipted = true
is_settled AttemptState.tombstoned_duplicate = true
is_settled _ = false

-- `state in {"RECEIPTED", "TOMBSTONED_DUPLICATE", "CANCELLED"}`
abbrev pub is_terminal : AttemptState → Bool
is_terminal AttemptState.cancelled = true
is_terminal s = is_settled s

abbrev same_parcel : Attempt → Attempt → Bool
same_parcel t o = o.message_id == t.message_id && o.bundle_id == t.bundle_id

abbrev greatest : List Attempt → ℕ
greatest [] = 0
greatest (t ∷ ts) =
    let rest = greatest ts in if leb rest t.attempt_number then t.attempt_number else rest

-- `COALESCE(MAX(attempt_number),0)+1`
abbrev next_number : Hub → Attempt → ℕ
next_number h t = greatest (select (same_parcel t) h.attempts) + 1

abbrev next_attempt : Call → Attempt → ℕ → Attempt
next_attempt c t number = record t {
  transport_attempt_id = c.fresh own_draw;
  state = AttemptState.pending;
  attempt_number = number;
  canonical_attempt_id = some t.transport_attempt_id;
  created_at = c.recorded_at;
  updated_at = c.recorded_at;
}

abbrev set_attempt : ℕ → (Attempt → Attempt) → Hub → Hub
set_attempt id change h = record h { attempts = update (is_attempt id) change h.attempts }

-- `if dispatch: UPDATE transport_dispatches …`
abbrev pub set_dispatch : Option Dispatch → (Dispatch → Dispatch) → Hub → Hub
set_dispatch none change h = h
set_dispatch (some d) change h = record h {
  dispatches = update (λ (o : Dispatch). o.dispatch_id == d.dispatch_id) change h.dispatches;
}

abbrev cancelled_at : ℕ → Dispatch → Dispatch
cancelled_at now d = record d { state = DispatchState.cancelled; updated_at = now }

-- The change of each operation on the attempt and the dispatch that were read, with its event
-- result.
unfoldable pub transport_change :
    Call → Attempt → Option Dispatch → TransportOperation → Tx (List (String × Json))
transport_change c t d retry = do
  require (λ _. is_failed t.state || stuck_dispatch d) (raised Code.concurrency_conflict)
  number ← reading (λ h. ok (next_number h t))
  insert_attempt (next_attempt c t number)
  modify (set_dispatch d (cancelled_at c.recorded_at))
  modify (set_state t.message_id MessageState.custody_recorded)
  pure (
      ("state", str "RETRIED")
      ∷ ("nextTransportAttemptId", num (c.fresh own_draw))
      ∷ ("attemptNumber", num number)
      ∷ [])
transport_change c t d (quarantine reason) = do
  require (λ _. not (is_terminal t.state)) (raised Code.concurrency_conflict)
  modify (
      set_attempt t.transport_attempt_id
        (λ o. record o { state = AttemptState.quarantined; updated_at = c.recorded_at }))
  modify (
      set_dispatch d (λ o. record o {
        state = DispatchState.terminal_failure;
        last_error_code = some reason;
        updated_at = c.recorded_at;
      }))
  modify (set_state t.message_id MessageState.quarantined)
  pure (("state", str "QUARANTINED") ∷ ("reasonCode", str reason) ∷ [])
transport_change c t d (tombstone_duplicate canonical_id) = do
  require (λ _. not (canonical_id == t.transport_attempt_id)) (raised Code.input_invalid)
  canonical ← row (λ h. transport_of h canonical_id) (raised Code.input_invalid)
  require (λ _. same_parcel t canonical) (raised Code.input_invalid)
  require (λ _. not (is_settled t.state)) (raised Code.concurrency_conflict)
  modify (
      set_attempt t.transport_attempt_id (λ o. record o {
        state = AttemptState.tombstoned_duplicate;
        canonical_attempt_id = some canonical_id;
        updated_at = c.recorded_at;
      }))
  modify (set_dispatch d (cancelled_at c.recorded_at))
  pure (
      ("state", str "TOMBSTONED_DUPLICATE")
      ∷ ("canonicalTransportAttemptId", num canonical_id)
      ∷ [])

-- only a retry creates an attempt
abbrev created_by : Call → TransportOperation → List ℕ
created_by c retry = c.fresh own_draw ∷ []
created_by c (quarantine _) = []
created_by c (tombstone_duplicate _) = []

module _ (sha256_json : Json → ℕ) where
  abbrev transport_root : ℕ → Json → ℕ
  transport_root id detail = aggregate_root sha256_json "TransportAttempt" id detail

  -- The message's own event, at the version that was read before, if its state has changed.
  unfoldable pub record_message : Call → ℕ → ℕ → ℕ → ℕ → ℕ → Tx (Unit {0})
  record_message c attempt_id message_id message_root_before message_version event = do
    changed ← row (λ h. message_of h message_id) (raised Code.internal_error)
    let after_root = message_root sha256_json message_id (message_state changed)
    if after_root == message_root_before then pure tt else (do
      modify (
          set_message message_id (λ m. record m {
            aggregate_version = message_version + 1;
            aggregate_root = after_root;
          }))
      append_hub_event sha256_json (record {
        request = c.request;
        capability_id = c.capability.capability_id;
        aggregate_type = "SemanticMessage";
        aggregate_id = message_id;
        aggregate_version = message_version + 1;
        before_root = message_root_before;
        after_root = after_root;
        event_result = fields (
            ("state", str (message_state_text changed.state))
            ∷ ("transportAttemptId", num attempt_id)
            ∷ ("sideEffectOfEventId", num event)
            ∷ []);
        occurred_at = c.recorded_at;
        event_id = c.fresh (own_draw + 1);
      })
      pure tt)

  -- What follows the two positions.
  unfoldable pub transport_operation :
      Call
      → ℕ
      → ℕ
      → ℕ
      → Attempt
      → Option Dispatch
      → Message
      → ℕ
      → ℕ
      → TransportOperation
      → Tx Response
  unfolding record_message
  transport_operation c id before_root version t d m message_before message_version op = do
    basis ← prepare_mutation_authority c (facts (m.project_id ∷ []) [] [] (m.mail_domain ∷ []))
    event_result ← transport_change c t d op
    updated ← row (λ h. transport_of h id) (raised Code.internal_error)
    after_root ← reading (λ h. ok (transport_root id (transport_state updated (dispatch_for h id))))
    response ← finalize_mutation sha256_json c basis (record {
      before_root = before_root;
      after_root = after_root;
      aggregate_version = version + 1;
      created_ids = created_by c op;
      event_result = event_result;
      link = no_link;
    })
    record_message c id m.message_id message_before message_version response.event_id
    pure response

  -- The handler of the three operations.
  unfoldable pub transport_mutation : Call → ℕ → TransportOperation → Tx Response
  transport_mutation c id op = do
    require_id c.request id
    t ← row (λ h. transport_of h id) (raised Code.input_invalid)
    d ← reading (λ h. ok (dispatch_for h id))
    let before_root = transport_root id (transport_state t d)
    version ← aggregate_position "TransportAttempt" id before_root
    require_aggregate c.request "TransportAttempt" id version before_root
    m ← row (λ h. message_of h t.message_id) (raised Code.internal_error)
    let message_before = message_root sha256_json m.message_id (message_state m)
    message_version ← aggregate_position "SemanticMessage" m.message_id message_before
    transport_operation c id before_root version t d m message_before message_version op
