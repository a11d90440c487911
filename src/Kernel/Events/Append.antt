-- ===== src/Kernel/Events/Append.antt =====
-- `append_hub_event`, with the constraints of the table `hub_events`.
use codex_post_office.Base.{
  ℕ, String, Bool, not, ◌&&◌, ◌||◌, List, [], ◌∷◌, ◌++◌, Json, Fields, object, num, str, obj, opt,
  Result, ok, err, raised, integrity_error, Code, any, ltb, ◌==◌, if◌then◌else◌, is_some,
}
use codex_post_office.Hub.{Event}
use codex_post_office.Kernel.Transaction.{Tx, reading, modify, ◌>>=◌, ◌>>◌}
use codex_post_office.Kernel.Events.Query.{
  Request, last_event, sequence_after, hash_of, of_aggregate,
}

-- The document whose digest is the event's: every column but that digest.
unfoldable pub event_body : Event → Json
event_body e = obj (
    ("sequence", num e.sequence)
    ∷ ("eventId", num e.event_id)
    ∷ ("occurredAt", num e.occurred_at)
    ∷ ("actorId", num e.actor_id)
    ∷ ("operation", str e.operation)
    ∷ ("capabilityId", num e.capability_id)
    ∷ ("authorityGrantId", opt e.authority_grant_id)
    ∷ ("exactAuthorActionId", opt e.exact_author_action_id)
    ∷ ("aggregateType", str e.aggregate_type)
    ∷ ("aggregateId", num e.aggregate_id)
    ∷ ("aggregateVersion", num e.aggregate_version)
    ∷ ("beforeStateRoot", num e.before_state_root)
    ∷ ("afterStateRoot", num e.after_state_root)
    ∷ ("result", e.result)
    ∷ ("payloadSha256", num e.payload_sha256)
    ∷ ("previousEventSha256", opt e.previous_event_sha256)
    ∷ [])

-- Two rows that a UNIQUE constraint of the table keeps apart.
abbrev pub conflicts : Event → Event → Bool
conflicts e o =
    o.event_id == e.event_id
    || o.event_sha256 == e.event_sha256
    || (of_aggregate e.aggregate_type e.aggregate_id o
        && o.aggregate_version == e.aggregate_version)

-- The arguments of `append_hub_event`, the identifier that it draws and the time that it records.
pub record Entry : Type 0 where
  pub request : Request
  pub capability_id : ℕ
  pub aggregate_type : String
  pub aggregate_id : ℕ
  pub aggregate_version : ℕ
  pub before_root : ℕ
  pub after_root : ℕ
  pub event_result : Fields
  pub occurred_at : ℕ
  pub event_id : ℕ

module _ (sha256_json : Json → ℕ) where
  unsigned : Entry → List Event → Event
  unsigned x es = record {
    sequence = sequence_after (last_event es);
    event_id = x.event_id;
    occurred_at = x.occurred_at;
    actor_id = x.request.actor_id;
    operation = x.request.operation;
    capability_id = x.capability_id;
    authority_grant_id = x.request.authority_grant_id;
    exact_author_action_id = x.request.exact_author_action_id;
    aggregate_type = x.aggregate_type;
    aggregate_id = x.aggregate_id;
    aggregate_version = x.aggregate_version;
    before_state_root = x.before_root;
    after_state_root = x.after_root;
    result = object x.event_result;
    payload_sha256 = sha256_json x.request.document;
    previous_event_sha256 = hash_of (last_event es);
    event_sha256 = 0;
  }

  unfoldable pub new_event : Entry → List Event → Event
  unfolding unsigned
  new_event x es = record (unsigned x es) {
    event_sha256 = sha256_json (event_body (unsigned x es));
  }

  -- No row holds the event's identifier, digest or version of the aggregate (the UNIQUE
  -- constraints of the table), and the version is positive.
  unfoldable pub insertable : Event → List Event → Bool
  insertable e es = not (any (conflicts e) es) && ltb 0 e.aggregate_version

  -- Exactly one authority basis, then the insertion; the result is the new event's identifier.
  unfoldable pub append_event : Entry → List Event → Result (List Event)
  append_event x es =
      let e = new_event x es in
      if is_some x.request.authority_grant_id
      then if is_some x.request.exact_author_action_id
        then err (raised Code.authorization_denied)
        else (if insertable e es then ok (es ++ e ∷ []) else err integrity_error)
      else (if is_some x.request.exact_author_action_id
          then (if insertable e es then ok (es ++ e ∷ []) else err integrity_error)
          else err (raised Code.authorization_denied))

  unfoldable pub append_hub_event : Entry → Tx ℕ
  unfolding ◌>>=◌
  append_hub_event x = (reading λ h. append_event x h.events) >>= λ es.
      modify (λ h. record h { events = es }) >> (λ h. ok (x.event_id, h))
