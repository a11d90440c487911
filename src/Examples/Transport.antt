-- ===== src/Examples/Transport.antt =====
-- Runs of the transport runtime.
use codex_post_office.Base.{
  ◌++◌, Result, Bool, is_ok, null, true, false, ℕ, ◌≡◌, ◌≢◌, ◌+◌, refl, true, Option, none, some,
  [], ◌∷◌, ok, arith,
}
use codex_post_office.Hub.{
  Bundle, BundleState, Endpoint, Mailbox, Attention, Hub, Actor, ActorKind, Attempt, AttemptState,
  Capability, Channel, Dispatch, DispatchState, Message, MessageState, Status,
}
use codex_post_office.Kernel.Transaction.{◌>>=◌}
use codex_post_office.Kernel.Events.Chain.{start, validate_hub_event_chain}
use codex_post_office.Kernel.Events.Growth.{IsHistory}
use codex_post_office.Kernel.Events.Append.{append_hub_event, append_event, insertable, new_event}
use codex_post_office.Kernel.Events.Query.{position_of}
use codex_post_office.Runtime.Courier.{Visit, courier}
use codex_post_office.Runtime.Dispatches.{
  destination_is_active, resolve_attention, resolution_clashes, resolve_superseded_attention,
  resolve_previous, record_runtime_receipt, raise_attention, insert_attention,
}
use codex_post_office.Runtime.Complete.{
  Completed, mark_delivered, complete_locked, complete_transport, runtime_request,
}
use codex_post_office.Runtime.Reconcile.{
  Observation, Round, absent, judge, expired_dispatches, observed_dispatches, recover, recover_all,
  hold_ambiguous, resolve_all, requeue_dispatch, reconcile_leases,
}
use codex_post_office.Runtime.Evidence.{IsEvidenced, complete_transport-evidence}
use mathlib.Core.List.Memᴰ.{head, tail}
use codex_post_office.Runtime.Clash.{HasTwin, absence, reconcile_leases-clash}
use codex_post_office.Runtime.Claim.{
  Claimed, leased_dispatch, candidates, choose, lease_dispatch, lease_chosen, claim_next_transport,
}
use codex_post_office.Runtime.Exclusive.{claim_next_transport-exclusive}
use codex_post_office.Runtime.Resend.{is_ready_again, reconcile_leases-no_resend}
use codex_post_office.Runtime.LogGrows.{complete_transport-IsHistory, reconcile_leases-IsHistory}
use codex_post_office.Examples.Data.{digest, empty_hub, hub_of, value_of}

abbrev courier_actor : Actor
courier_actor = record {
  actor_id = 40;
  actor_kind = ActorKind.courier;
  role = "courier";
  status = Status.active;
}

abbrev courier_capability : Capability
courier_capability = record {
  capability_id = 41;
  actor_id = 40;
  secret_sha256 = 43;
  allowed_operations = [];
  status = Status.active;
  expires_at = none;
}

abbrev message : Message
message = record {
  message_id = 50;
  project_id = 20;
  mail_domain = 30;
  message_type = 51;
  sender_endpoint_id = 52;
  recipient_mailbox_id = 53;
  recipient_generation = 1;
  related_message_ids = [];
  authority_grant_id = some 54;
  exact_author_action_id = none;
  requested_action = 55;
  completion_criteria = 56;
  content_root = 57;
  semantic_cycle_id = 0;
  state = MessageState.registered;
  aggregate_version = 0;
  aggregate_root = 0;
  registered_event_id = none;
}

abbrev attempt : Attempt
attempt = record {
  transport_attempt_id = 60;
  message_id = 50;
  bundle_id = 61;
  source = 52;
  destination_mailbox_id = 53;
  destination_generation = 1;
  state = AttemptState.pending;
  attempt_number = 1;
  canonical_attempt_id = none;
  created_at = 10;
  updated_at = 10;
}

abbrev bundle : Bundle
bundle = record {
  bundle_id = 61;
  message_id = 50;
  canonical_filename = 63;
  bundle_version = 1;
  size_bytes = 0;
  sha256 = 62;
  manifest_root = 64;
  state = BundleState.registered;
  payloads = [];
}

abbrev dispatch : Dispatch
dispatch = record {
  dispatch_id = 70;
  transport_attempt_id = 60;
  channel = Channel.native_task;
  destination_endpoint_id = 71;
  destination_mailbox_id = 53;
  destination_generation = 1;
  state = DispatchState.leased;
  lease_owner_actor_id = some 40;
  lease_token_sha256 = some 73;
  lease_expires_at = some 200;
  observable_marker = 74;
  observed_receipt_id = none;
  attempt_count = 1;
  next_attempt_at = 10;
  last_error_code = none;
  created_at = 10;
  updated_at = 20;
}

-- another dispatch, which is ready
abbrev waiting : Dispatch
waiting = record dispatch {
  dispatch_id = 80;
  transport_attempt_id = 81;
  state = DispatchState.ready;
  lease_owner_actor_id = none;
  lease_token_sha256 = none;
  lease_expires_at = none;
  attempt_count = 0;
}

abbrev leased_hub : Hub
leased_hub = record empty_hub {
  actors = courier_actor ∷ [];
  capabilities = courier_capability ∷ [];
  messages = message ∷ [];
  attempts = attempt ∷ [];
  dispatches = dispatch ∷ waiting ∷ [];
}

abbrev sha256_bytes : ℕ → ℕ
sha256_bytes n = n + 1

-- a visit at an instant
abbrev visit : ℕ → Visit
visit instant = record {
  credential = record { capability_id = 41; secret = 42 };
  authenticated_at = instant;
  checked_at = instant;
  now = instant;
  fresh = λ draw id. 1000 + id;
}

no_events : IsHistory digest []
unfolding validate_hub_event_chain
no_events = record { state = start; valid = refl; starts = λ k i n. absurd (n refl) }

abbrev unobserved : ℕ → Option Observation
unobserved id = none

abbrev no_completion : Completed
no_completion = record { event_id = 0; runtime_receipt_id = 0; completed_message_id = 0 }

delivered_hub : Hub
delivered_hub =
    hub_of (complete_transport digest sha256_bytes (visit 100) 70 72 74 (some 75) leased_hub)

completion : Completed
completion =
    value_of no_completion
      (complete_transport digest sha256_bytes (visit 100) 70 72 74 (some 75) leased_hub)

deliver :
    complete_transport digest sha256_bytes (visit 100) 70 72 74 (some 75) leased_hub
    ≡ ok (completion, delivered_hub)
unfolding delivered_hub completion complete_transport complete_locked mark_delivered ◌>>=◌ courier
    position_of append_hub_event append_event insertable new_event runtime_request
    record_runtime_receipt resolve_attention resolution_clashes resolve_superseded_attention
    resolve_previous
deliver = refl

complete_transport-IsHistory_example : IsHistory digest delivered_hub.events
complete_transport-IsHistory_example =
    complete_transport-IsHistory digest sha256_bytes (visit 100) 70 72 74 (some 75) leased_hub
      delivered_hub completion no_events deliver

-- the lease has run out, and nobody has observed anything
held_hub : Hub
held_hub = hub_of (reconcile_leases digest sha256_bytes (visit 300) unobserved leased_hub)

round : Round
round = value_of ([], []) (reconcile_leases digest sha256_bytes (visit 300) unobserved leased_hub)

hold : reconcile_leases digest sha256_bytes (visit 300) unobserved leased_hub ≡ ok (round, held_hub)
unfolding held_hub round reconcile_leases ◌>>=◌ courier expired_dispatches observed_dispatches
    recover_all recover judge hold_ambiguous raise_attention insert_attention resolve_all
hold = refl

reconcile_leases-IsHistory_example : IsHistory digest held_hub.events
reconcile_leases-IsHistory_example =
    reconcile_leases-IsHistory digest sha256_bytes (visit 300) unobserved leased_hub held_hub round
      no_events hold

never_absent : (d : Dispatch) → judge d none ≢ absent
unfolding judge
never_absent d = λ e. absurd (ground arith)

still_ready : is_ready_again 80 held_hub ≡ true
unfolding held_hub reconcile_leases ◌>>=◌ courier expired_dispatches observed_dispatches recover_all
    recover judge hold_ambiguous raise_attention insert_attention resolve_all
still_ready = refl

reconcile_leases-no_resend_example : is_ready_again 80 leased_hub ≡ true
reconcile_leases-no_resend_example =
    reconcile_leases-no_resend digest sha256_bytes (visit 300) unobserved 80 leased_hub held_hub
      round never_absent hold still_ready

complete_transport-evidence_example :
    IsEvidenced sha256_bytes (visit 100) 70 72 74 (some 75) leased_hub
complete_transport-evidence_example =
    complete_transport-evidence sha256_bytes (visit 100) 70 72 74 (some 75) digest leased_hub
      delivered_hub completion deliver

-- the dispatch was ambiguous twice, and resolved once
abbrev item : Bool → Attention
item open_state = record {
  attention_id = 90;
  entity_type = "TransportDispatch";
  entity_id = 70;
  severity = "ERROR";
  reason_code = "PON_OBSERVATION_AMBIGUOUS";
  details = null;
  recorded_at = 30;
  is_open = open_state;
  resolved_at = none;
}

abbrev held : Dispatch
held = record dispatch { state = DispatchState.reconciliation_required }

-- nothing was sent
abbrev unsent : Observation
unsent = record { marker = none; receipt_id = none; marker_absent = true }

abbrev all_unsent : ℕ → Option Observation
all_unsent id = some unsent

abbrev once_held_hub : Hub
once_held_hub = record leased_hub { dispatches = held ∷ waiting ∷ []; attention = item true ∷ [] }

abbrev clashing_hub : Hub
clashing_hub = record once_held_hub { attention = item false ∷ item true ∷ [] }

-- Without the resolved item the dispatch is recovered.
recovery : is_ok (reconcile_leases digest sha256_bytes (visit 100) all_unsent once_held_hub) ≡ true
unfolding reconcile_leases ◌>>=◌ courier expired_dispatches observed_dispatches recover_all recover
    judge requeue_dispatch record_runtime_receipt resolve_attention resolution_clashes resolve_all
recovery = refl

held_first :
    expired_dispatches (visit 100).now clashing_hub ++ observed_dispatches all_unsent clashing_hub
    ≡ held ∷ []
unfolding expired_dispatches observed_dispatches
held_first = refl

twin : HasTwin 70 clashing_hub.attention
twin = record {
  item = item true;
  twin = item false;
  is_item = tail (head refl);
  is_twin = head refl;
  of_dispatch = refl;
  of_this = refl;
  is_open = refl;
  same_type = refl;
  same_entity = refl;
  same_reason = refl;
  is_resolved = refl;
}

reconcile_leases-clash_example :
    is_ok (reconcile_leases digest sha256_bytes (visit 100) all_unsent clashing_hub) ≡ false
reconcile_leases-clash_example =
    reconcile_leases-clash digest (visit 100) sha256_bytes all_unsent held [] unsent clashing_hub
      held_first refl (absence refl) twin

abbrev endpoint : Endpoint
endpoint = record {
  endpoint_id = 71;
  actor_id = 40;
  project_id = 20;
  task_id = none;
  role = "courier";
  access_scope = record { project_ids = []; task_ids = []; package_ids = []; scope_domains = [] };
  status = Status.active;
  startup_root = 0;
  created_event_id = none;
}

abbrev mailbox : Mailbox
mailbox = record {
  mailbox_id = 53;
  generation = 1;
  mail_domain = 30;
  endpoint_id = 71;
  status = Status.active;
  created_event_id = none;
}

-- two ready dispatches with an active destination
abbrev first_ready : Dispatch
first_ready = record waiting { dispatch_id = 80; transport_attempt_id = 60 }

abbrev second_ready : Dispatch
second_ready = record waiting { dispatch_id = 81; transport_attempt_id = 60 }

abbrev ready_hub : Hub
ready_hub = record leased_hub {
  endpoints = endpoint ∷ [];
  mailboxes = mailbox ∷ [];
  bundles = bundle ∷ [];
  dispatches = first_ready ∷ second_ready ∷ [];
}

claimed : Result (Claimed × Hub)
claimed = claim_next_transport digest sha256_bytes (visit 100) 91 600 none ready_hub

claim_first :
    claim_next_transport digest sha256_bytes (visit 100) 91 600 none ready_hub
    ≡ ok (leased_dispatch first_ready 91 600000100, hub_of claimed)
unfolding claimed claim_next_transport ◌>>=◌ courier candidates choose destination_is_active
    lease_chosen lease_dispatch record_runtime_receipt
claim_first = refl

claimed_next : Result (Claimed × Hub)
claimed_next = claim_next_transport digest sha256_bytes (visit 101) 92 600 none (hub_of claimed)

claim_second :
    claim_next_transport digest sha256_bytes (visit 101) 92 600 none (hub_of claimed)
    ≡ ok (leased_dispatch second_ready 92 600000101, hub_of claimed_next)
unfolding claimed claimed_next claim_next_transport ◌>>=◌ courier candidates choose
    destination_is_active lease_chosen lease_dispatch record_runtime_receipt
claim_second = refl

claim_next_transport-exclusive_example : second_ready.dispatch_id ≢ first_ready.dispatch_id
claim_next_transport-exclusive_example =
    claim_next_transport-exclusive digest sha256_bytes (visit 100) (visit 101) 91 92 600 600 none
      none first_ready second_ready 91 92 600000100 600000101 ready_hub (hub_of claimed)
      (hub_of claimed_next) claim_first claim_second
