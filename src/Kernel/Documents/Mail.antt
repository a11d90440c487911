-- ===== src/Kernel/Documents/Mail.antt =====
-- The state documents of message plans and transport attempts: `_message_plan_state` and
-- `_transport_state`.
use codex_post_office.Base.{
  String, Option, none, some, List, [], ◌∷◌, ◌++◌, map, Json, null, num, str, arr, obj, nums,
}
use codex_post_office.Hub.{
  MessageDraft, BundleDraft, BundlePayload, MessagePlan, MessagePlanState, Attempt, Dispatch,
  channel_text, dispatch_state_text, attempt_state_text,
}
use codex_post_office.Kernel.Documents.{optional_field}

abbrev message_plan_state_text : MessagePlanState → String
message_plan_state_text MessagePlanState.planned = "PLANNED"
message_plan_state_text MessagePlanState.registered = "REGISTERED"
message_plan_state_text MessagePlanState.superseded = "SUPERSEDED"

unfoldable pub message_document : MessageDraft → Json
message_document m = obj (
    ("id", num m.message_id)
    ∷ ("domain", num m.mail_domain)
    ∷ ("messageType", num m.message_type)
    ∷ ("senderEndpointId", num m.sender_endpoint_id)
    ∷ ("recipientMailboxId", num m.recipient_mailbox_id)
    ∷ ("recipientGeneration", num m.recipient_generation)
    ∷ ("relatedMessageIds", arr (nums m.related_message_ids))
    ∷ ("authorityBasisId", num m.authority_basis_id)
    ∷ ("requestedAction", num m.requested_action)
    ∷ ("completionCriteria", num m.completion_criteria)
    ∷ ("contentRoot", num m.content_root)
    ∷ ("semanticCycleId", num m.semantic_cycle_id)
    ∷ [])

unfoldable pub bundle_payload_document : BundlePayload → Json
bundle_payload_document p = obj (
    ("path", num p.relative_path) ∷ ("sizeBytes", num p.size_bytes) ∷ ("sha256", num p.sha256) ∷ [])

unfoldable pub bundle_document : BundleDraft → Json
bundle_document b = obj (
    ("id", num b.bundle_id)
    ∷ ("semanticMessageId", num b.semantic_message_id)
    ∷ ("canonicalFilename", num b.canonical_filename)
    ∷ ("bundleVersion", num b.bundle_version)
    ∷ ("sizeBytes", num b.size_bytes)
    ∷ ("sha256", num b.sha256)
    ∷ ("manifestRoot", num b.manifest_root)
    ∷ ("payloads", arr (map bundle_payload_document b.payloads))
    ∷ [])

-- the document whose digest is the plan's root
unfoldable pub planned_content : MessageDraft → BundleDraft → Json
planned_content m b = obj (("message", message_document m) ∷ ("bundle", bundle_document b) ∷ [])

unfoldable pub message_plan_state : MessagePlan → Json
message_plan_state p = obj (
    ("planId", num p.plan_id)
    ∷ ("message", message_document p.semantic_message)
    ∷ ("bundle", bundle_document p.bundle)
    ∷ ("planRoot", num p.plan_root)
    ∷ ("state", str (message_plan_state_text p.state))
    ∷ [])

abbrev error_code : Option String → Json
error_code none = null
error_code (some code) = str code

pub dispatch_document : Dispatch → Json
dispatch_document d = obj (
    ("id", num d.dispatch_id)
    ∷ ("channel", str (channel_text d.channel))
    ∷ ("state", str (dispatch_state_text d.state))
    ∷ ("destinationEndpointId", num d.destination_endpoint_id)
    ∷ ("destinationMailboxId", num d.destination_mailbox_id)
    ∷ ("destinationGeneration", num d.destination_generation)
    ∷ ("observableMarker", num d.observable_marker)
    ∷ ("attemptCount", num d.attempt_count)
    ∷ ("nextAttemptAt", num d.next_attempt_at)
    ∷ ("lastErrorCode", error_code d.last_error_code)
    ∷ [])

abbrev dispatch_field : Option Dispatch → List (String × Json)
dispatch_field none = []
dispatch_field (some d) = ("dispatch", dispatch_document d) ∷ []

unfoldable pub transport_state : Attempt → Option Dispatch → Json
transport_state t d = obj (
    (("id", num t.transport_attempt_id)
      ∷ ("semanticMessageId", num t.message_id)
      ∷ ("bundleId", num t.bundle_id)
      ∷ ("source", num t.source)
      ∷ ("destination", arr (num t.destination_mailbox_id ∷ num t.destination_generation ∷ []))
      ∷ ("state", str (attempt_state_text t.state))
      ∷ ("attemptNumber", num t.attempt_number)
      ∷ [])
    ++ optional_field "canonicalAttemptId" t.canonical_attempt_id
    ++ dispatch_field d)
