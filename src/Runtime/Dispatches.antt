-- ===== src/Runtime/Dispatches.antt =====
-- What the runtime's calls share: the destination test, attention items and receipts.
use codex_post_office.Base.{
  ℕ, suc, zero, String, Bool, true, false, not, ◌&&◌, Option, none, some, List, [], ◌∷◌, ◌++◌, Json,
  find, any, update, ◌==◌, str_eq, if◌then◌else◌, contains, ok, integrity_error,
}
use codex_post_office.Hub.{Hub, Actor, Endpoint, Mailbox, Attempt, Dispatch, Attention, is_active}
use codex_post_office.Kernel.Transaction.{Tx, require, reading, modify, pure, ◌>>=◌, ◌>>◌}
use codex_post_office.Kernel.Authority.Call.{actor_of}
use codex_post_office.Runtime.Courier.{Visit, attention_draw, receipt_draw}

abbrev pub is_dispatch : ℕ → Dispatch → Bool
is_dispatch id d = d.dispatch_id == id

abbrev pub dispatch_of : Hub → ℕ → Option Dispatch
dispatch_of h id = find (is_dispatch id) h.dispatches

abbrev pub attempt_of : Hub → ℕ → Option Attempt
attempt_of h id = find (λ (a : Attempt). a.transport_attempt_id == id) h.attempts

-- the mailbox generation, if the endpoint serves it
abbrev pub served_generation : Hub → ℕ → ℕ → ℕ → Option Mailbox
served_generation h endpoint_id mailbox_id generation =
    find
      (λ (m : Mailbox).
        m.endpoint_id == endpoint_id && (m.mailbox_id == mailbox_id && m.generation == generation))
      h.mailboxes

abbrev active_actor : Option Actor → Bool
active_actor none = false
active_actor (some a) = is_active a.status

abbrev active_pair : Hub → Option Endpoint → Option Mailbox → Bool
active_pair h (some e) (some m) =
    is_active e.status && (is_active m.status && active_actor (actor_of h e.actor_id))
active_pair h _ _ = false

-- `_destination_is_active`
unfoldable pub destination_is_active : Hub → ℕ → ℕ → ℕ → Bool
destination_is_active h endpoint_id mailbox_id generation =
    active_pair h (find (λ (e : Endpoint). e.endpoint_id == endpoint_id) h.endpoints)
      (served_generation h endpoint_id mailbox_id generation)

-- `_record_runtime_receipt`
unfoldable pub record_runtime_receipt : (Json → ℕ) → Visit → ℕ → String → Json → Tx ℕ
record_runtime_receipt sha256_json v dispatch_id kind evidence =
    modify (λ h. record h {
      receipts =
          h.receipts
          ++ record {
            receipt_id = v.fresh receipt_draw dispatch_id;
            dispatch_id = dispatch_id;
            receipt_kind = kind;
            evidence = evidence;
            evidence_root = sha256_json evidence;
            recorded_at = v.now;
          }
            ∷ [];
    })
    >> pure (v.fresh receipt_draw dispatch_id)

abbrev pub concerns : String → ℕ → Attention → Bool
concerns kind id a = str_eq a.entity_type kind && a.entity_id == id

abbrev pub is_raised : String → ℕ → String → Attention → Bool
is_raised kind id reason a = concerns kind id a && (str_eq a.reason_code reason && a.is_open)

new_attention : Visit → String → ℕ → String → String → Json → Attention
new_attention v kind id severity reason details = record {
  attention_id = v.fresh attention_draw id;
  entity_type = kind;
  entity_id = id;
  severity = severity;
  reason_code = reason;
  details = details;
  recorded_at = v.now;
  is_open = true;
  resolved_at = none;
}

unfoldable pub insert_attention : Option Attention → Attention → Tx ℕ
insert_attention (some a) new = pure a.attention_id
insert_attention none new =
    modify (λ h. record h { attention = h.attention ++ new ∷ [] }) >> pure new.attention_id

-- `_attention`: an open item for the same reason is kept.
unfoldable pub raise_attention : Visit → String → ℕ → String → String → Json → Tx ℕ
unfolding new_attention insert_attention
raise_attention v kind id severity reason details = do
  retained ← reading (λ h. ok (find (is_raised kind id reason) h.attention))
  insert_attention retained (new_attention v kind id severity reason details)

-- A resolved item for the reason of an open one: UNIQUE (entity_type, entity_id, reason_code, state)
-- then refuses to resolve the open one.
abbrev pub is_resolved_twin : Attention → Attention → Bool
is_resolved_twin a b =
    concerns a.entity_type a.entity_id b && (str_eq b.reason_code a.reason_code && not b.is_open)

abbrev pub open_for : ℕ → Attention → Bool
open_for dispatch_id a = concerns "TransportDispatch" dispatch_id a && a.is_open

unfoldable pub resolution_clashes : ℕ → Hub → Bool
resolution_clashes dispatch_id h =
    any (λ a. open_for dispatch_id a && any (is_resolved_twin a) h.attention) h.attention

-- The UPDATE that resolves the open attention items of a dispatch.
unfoldable pub resolve_attention : ℕ → ℕ → Tx (Unit {0})
resolve_attention now dispatch_id = do
  require (λ h. not (resolution_clashes dispatch_id h)) integrity_error
  modify λ h. record h {
    attention =
        update (open_for dispatch_id) (λ a. record a { is_open = false; resolved_at = some now })
          h.attention;
  }

abbrev dispatch_of_attempt : Hub → ℕ → Option Dispatch
dispatch_of_attempt h id = find (λ (d : Dispatch). d.transport_attempt_id == id) h.dispatches

abbrev pub resolve_dispatch : ℕ → Option Dispatch → Tx (Unit {0})
resolve_dispatch now none = pure tt
resolve_dispatch now (some d) = resolve_attention now d.dispatch_id

-- One round of the loop: `rest` goes on from the previous attempt's `canonical_attempt_id`.
abbrev pub resolve_attempt : ℕ → (Option ℕ → Tx (Unit {0})) → ℕ → Option Attempt → Tx (Unit {0})
resolve_attempt now rest id none = pure tt
resolve_attempt now rest id (some previous) = do
  d ← reading (λ h. ok (dispatch_of_attempt h id))
  resolve_dispatch now d
  rest previous.canonical_attempt_id

-- The loop of `_resolve_superseded_transport_attention`, of at most `fuel` rounds: it follows
-- `canonical_attempt_id` back, and stops at an attempt that it has seen.
unfoldable pub resolve_previous : ℕ → ℕ → List ℕ → Option ℕ → Tx (Unit {0})
resolve_previous zero now seen previous = pure tt
resolve_previous (suc fuel) now seen none = pure tt
resolve_previous (suc fuel) now seen (some id) = if contains id seen then pure tt else (do
  previous ← reading (λ h. ok (attempt_of h id))
  resolve_attempt now (λ next. resolve_previous fuel now (id ∷ seen) next) id previous)

-- `len(seen) < 32`
unfoldable pub resolve_superseded_attention : ℕ → Attempt → Tx (Unit {0})
unfolding resolve_previous
resolve_superseded_attention now attempt = resolve_previous 32 now [] attempt.canonical_attempt_id
