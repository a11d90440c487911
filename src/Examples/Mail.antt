-- ===== src/Examples/Mail.antt =====
-- Runs of the mutations on messages, transport attempts, mailboxes and reconciliation plans.
use codex_post_office.Base.{◌≡◌, refl, true, none, some, [], ◌∷◌, map, Result, ok, is_ok}
use codex_post_office.Hub.{
  Hub, Status, Endpoint, Mailbox, Message, MessageState, MessageDraft, BundleDraft,
  MessagePlanState, Attempt, AttemptState, local_cas, CycleState, Observation, ObservationState,
  matched, mismatch, previewed,
}
use codex_post_office.Kernel.Documents.{message_state}
use codex_post_office.Kernel.Documents.Mail.{transport_state}
use codex_post_office.Kernel.Transaction.{◌>>=◌, modify}
use codex_post_office.Kernel.Events.Query.{aggregate_root, position_of, aggregate_matches}
use codex_post_office.Kernel.Events.Append.{
  event_body, append_hub_event, append_event, insertable, new_event,
}
use codex_post_office.Kernel.Authority.Basis.{prepare_mutation_authority, prepare_action}
use codex_post_office.Kernel.Authority.Call.{Call}
use codex_post_office.Kernel.Authority.Finalize.{
  Response, finalize_mutation, consume_action, consume_grant_authority,
}
use codex_post_office.Kernel.Mutations.Messages
use codex_post_office.Kernel.Mutations.Messages.{
  message_change, message_link, finish_message, message_operation, message_mutation,
}
use codex_post_office.Kernel.Mutations.MessageStates.{IsMessageStep, states_of}
use codex_post_office.Kernel.Mutations.MessageLifecycle.{message_mutation-lifecycle}
use codex_post_office.Kernel.Mutations.Transports
use codex_post_office.Kernel.Mutations.Transports.{
  transport_of, transport_change, record_message, transport_operation, transport_mutation,
}
use codex_post_office.Kernel.Mutations.TransportStates.{effect, transport_mutation-states}
use codex_post_office.Kernel.Mutations.Reconciliation.{
  open_observations, planned_action, resolve_observations, apply_reconciliation,
}
use codex_post_office.Kernel.Mutations.Resolution.{resolves_all, resolve_observations-resolves_all}
use codex_post_office.Kernel.Mutations.Preview.{planned_actions-resolve}
use codex_post_office.Kernel.Mutations.Discrepancies.{
  discrepancies, apply_reconciliation-discrepancies,
}
use codex_post_office.Kernel.Mutations.Mailboxes.{
  insert_generation, by_generation, generations, rotate_from, rotate_generation,
}
use codex_post_office.Kernel.Mutations.Rotation.{IsRotated, keys_of, rotate_generation-IsRotated}
use codex_post_office.Examples.Data.{
  digest, author_hub, request, call, hub_of, value_of, no_response,
}

abbrev message : MessageState → Message
message s = record {
  message_id = 50;
  project_id = 20;
  mail_domain = 30;
  message_type = 40;
  sender_endpoint_id = 71;
  recipient_mailbox_id = 53;
  recipient_generation = 1;
  related_message_ids = [];
  authority_grant_id = none;
  exact_author_action_id = some 5;
  requested_action = 41;
  completion_criteria = 42;
  content_root = 43;
  semantic_cycle_id = 44;
  state = s;
  aggregate_version = 1;
  aggregate_root = 0;
  registered_event_id = none;
}

abbrev reviewed_hub : Hub
reviewed_hub = record author_hub { messages = message MessageState.reviewed ∷ [] }

abbrev close_call : Call
close_call = call (request "message.close" "SemanticMessage" 50)

closing : Result (Response × Hub)
closing = message_mutation digest close_call (Messages.step 50 (Messages.close 80)) reviewed_hub

run_close :
    message_mutation digest close_call (Messages.step 50 (Messages.close 80)) reviewed_hub
    ≡ ok (value_of no_response closing, hub_of closing)
unfolding closing message_mutation message_operation message_change finish_message message_link
    ◌>>=◌ prepare_mutation_authority prepare_action finalize_mutation append_hub_event append_event
    insertable new_event aggregate_matches consume_action consume_grant_authority position_of
run_close = refl

message_mutation-lifecycle_example :
    IsMessageStep
      (Messages.step 50 (Messages.close 80))
      (states_of reviewed_hub)
      (states_of (hub_of closing))
message_mutation-lifecycle_example =
    message_mutation-lifecycle digest close_call (Messages.step 50 (Messages.close 80)) reviewed_hub
      (hub_of closing) (value_of no_response closing) run_close

abbrev draft : MessageDraft
draft = record {
  message_id = 50;
  mail_domain = 30;
  message_type = 40;
  sender_endpoint_id = 71;
  recipient_mailbox_id = 53;
  recipient_generation = 1;
  related_message_ids = [];
  authority_basis_id = 5;
  requested_action = 41;
  completion_criteria = 42;
  content_root = 43;
  semantic_cycle_id = 44;
}

abbrev bundle : BundleDraft
bundle = record {
  bundle_id = 51;
  semantic_message_id = 50;
  canonical_filename = 45;
  bundle_version = 1;
  size_bytes = 10;
  sha256 = 46;
  manifest_root = 47;
  payloads = [];
}

abbrev endpoint : Endpoint
endpoint = record {
  endpoint_id = 71;
  actor_id = 1;
  project_id = 20;
  task_id = none;
  role = "author";
  access_scope = record { project_ids = []; task_ids = []; package_ids = []; scope_domains = [] };
  status = Status.active;
  startup_root = 72;
  created_event_id = none;
}

abbrev mailbox : Mailbox
mailbox = record {
  mailbox_id = 53;
  generation = 1;
  mail_domain = 30;
  endpoint_id = 71;
  status = Status.active;
  created_event_id = none;
}

-- a message that is planned, with its bundle in custody
abbrev planned_hub : Hub
planned_hub = record author_hub {
  mail_domains = record { project_id = 20; mail_domain = 30 } ∷ [];
  endpoints = endpoint ∷ [];
  mailboxes = mailbox ∷ [];
  cycles =
      record {
        cycle_id = 44;
        project_id = 20;
        scope_text = 48;
        opening_author_action_id = 5;
        state = CycleState.active;
        acceptance_author_action_id = none;
        closure_author_action_id = none;
        aggregate_version = 1;
        aggregate_root = 0;
      }
      ∷ [];
  message_plans =
      record {
        plan_id = 52;
        message_id = 50;
        bundle_id = 51;
        semantic_message = draft;
        bundle = bundle;
        plan_root = 49;
        state = MessagePlanState.planned;
        aggregate_version = 1;
        aggregate_root = 0;
        created_event_id = none;
        registered_event_id = none;
        registered_at = none;
      }
      ∷ [];
  copies = record { content_sha256 = 46; location_kind = local_cas } ∷ [];
}

abbrev register_call : Call
register_call = call (request "message.register" "SemanticMessage" 50)

registering : Result (Response × Hub)
registering = message_mutation digest register_call (Messages.register draft 51) planned_hub

-- a closed message, with an attempt that is still pending
abbrev closed_hub : Hub
closed_hub = record author_hub {
  messages = message MessageState.closed ∷ [];
  attempts =
      record {
        transport_attempt_id = 54;
        message_id = 50;
        bundle_id = 51;
        source = 71;
        destination_mailbox_id = 53;
        destination_generation = 1;
        state = AttemptState.pending;
        attempt_number = 2;
        canonical_attempt_id = none;
        created_at = 90;
        updated_at = 90;
      }
      ∷ [];
}

abbrev quarantine_call : Call
quarantine_call = call (request "transport.quarantine" "TransportAttempt" 54)

quarantining : Result (Response × Hub)
quarantining =
    transport_mutation digest quarantine_call 54 (Transports.quarantine "DAMAGED") closed_hub

run_quarantine :
    transport_mutation digest quarantine_call 54 (Transports.quarantine "DAMAGED") closed_hub
    ≡ ok (value_of no_response quarantining, hub_of quarantining)
unfolding quarantining transport_mutation transport_operation transport_change record_message ◌>>=◌
    modify prepare_mutation_authority prepare_action finalize_mutation append_hub_event append_event
    insertable new_event aggregate_matches consume_action consume_grant_authority position_of digest
    event_body aggregate_root message_state transport_state
run_quarantine = refl

transport_mutation-states_example :
    (t : Attempt) × (transport_of closed_hub 54 ≡ some t)
    × (states_of (hub_of quarantining)
        ≡ effect (Transports.quarantine "DAMAGED") t.message_id (states_of closed_hub))
transport_mutation-states_example =
    transport_mutation-states digest quarantine_call 54 (Transports.quarantine "DAMAGED") closed_hub
      (hub_of quarantining) (value_of no_response quarantining) run_quarantine

-- a mailbox with two generations, the later one of them active
abbrev mailbox_hub : Hub
mailbox_hub = record author_hub {
  endpoints = endpoint ∷ [];
  mailboxes = record mailbox { status = Status.retired } ∷ record mailbox { generation = 2 } ∷ [];
}

abbrev rotate_call : Call
rotate_call = call (request "mailbox.rotateGeneration" "Mailbox" 53)

rotating : Result (Response × Hub)
rotating = rotate_generation digest rotate_call 53 81 mailbox_hub

run_rotate :
    rotate_generation digest rotate_call 53 81 mailbox_hub
    ≡ ok (value_of no_response rotating, hub_of rotating)
unfolding rotating rotate_generation rotate_from generations by_generation insert_generation ◌>>=◌
    modify prepare_mutation_authority prepare_action finalize_mutation append_hub_event append_event
    insertable new_event aggregate_matches consume_action consume_grant_authority position_of
run_rotate = refl

rotate_generation-IsRotated_example : IsRotated 53 (keys_of mailbox_hub) (keys_of (hub_of rotating))
rotate_generation-IsRotated_example =
    rotate_generation-IsRotated digest rotate_call 53 81 mailbox_hub (hub_of rotating)
      (value_of no_response rotating) run_rotate

abbrev observed : Observation
observed = record {
  observation_id = 90;
  source_kind = "PROJECT";
  source_reference = 91;
  expected_root = some 92;
  observed_root = some 92;
  verdict = matched;
  evidence_root = 93;
  state = ObservationState.pending;
  resolved_at = none;
}

-- a match that the plan resolves, and a discrepancy that came after the preview
abbrev observed_hub : Hub
observed_hub = record author_hub {
  observations =
      observed
      ∷ record observed { observation_id = 94; observed_root = some 95; verdict = mismatch }
      ∷ [];
  reconciliation_plans =
      record {
        plan_id = 96;
        snapshot_root = 97;
        assertion_set_root = 98;
        observation_set_root = 99;
        planned_actions =
            record { observation_id = 90; is_automatic = true; verdict = matched } ∷ [];
        plan_root = 100;
        state = previewed;
        aggregate_version = 1;
        aggregate_root = 0;
        applied_at = none;
        applied_event_id = none;
      }
      ∷ [];
}

abbrev apply_call : Call
apply_call = call (request "hub.reconcile.apply" "ReconciliationPlan" 96)

applying : Result (Response × Hub)
applying = apply_reconciliation digest apply_call 96 100 observed_hub

run_apply :
    apply_reconciliation digest apply_call 96 100 observed_hub
    ≡ ok (value_of no_response applying, hub_of applying)
unfolding applying apply_reconciliation resolve_observations ◌>>=◌ modify prepare_mutation_authority
    prepare_action finalize_mutation append_hub_event append_event insertable new_event
    aggregate_matches consume_action consume_grant_authority position_of
run_apply = refl

apply_reconciliation-discrepancies_example :
    discrepancies (hub_of applying) ≡ discrepancies observed_hub
apply_reconciliation-discrepancies_example =
    apply_reconciliation-discrepancies digest apply_call 96 100 observed_hub (hub_of applying)
      (value_of no_response applying) run_apply

-- the first action names the open match, the second one the discrepancy
resolve_observations-resolves_all_example :
    is_ok (
      resolve_observations 100
        (record { observation_id = 90; is_automatic = true; verdict = matched }
          ∷ record { observation_id = 94; is_automatic = true; verdict = matched }
          ∷ [])
        observed_hub)
    ≡ resolves_all
        (record { observation_id = 90; is_automatic = true; verdict = matched }
          ∷ record { observation_id = 94; is_automatic = true; verdict = matched }
          ∷ [])
        observed_hub.observations
resolve_observations-resolves_all_example =
    resolve_observations-resolves_all 100
      (record { observation_id = 90; is_automatic = true; verdict = matched }
        ∷ record { observation_id = 94; is_automatic = true; verdict = matched }
        ∷ [])
      observed_hub

-- two open matches, and a discrepancy that has been accepted
abbrev matched_hub : Hub
matched_hub = record author_hub {
  observations =
      record observed { observation_id = 95 }
      ∷ observed
      ∷ record observed {
        observation_id = 94;
        verdict = mismatch;
        state = ObservationState.accepted_exception;
      }
      ∷ [];
}

planned_actions-resolve_example :
    is_ok
      (resolve_observations 100 (map planned_action (open_observations matched_hub)) matched_hub)
    ≡ true
planned_actions-resolve_example = planned_actions-resolve 100 matched_hub refl refl
