-- ===== src/Runtime/Claim.antt =====
-- `claim_next_transport`: a courier leases the first ready dispatch whose destination is active.
use codex_post_office.Base.{
  ℕ, ◌+◌, ◌*◌, Bool, true, false, ◌&&◌, ◌||◌, Option, none, some, List, [], ◌∷◌, ◌++◌, Json, num,
  obj, find, all, update, select, ◌==◌, if◌then◌else◌, leb, ltb, any, ok, raised, Code,
}
use codex_post_office.Hub.{Hub, Bundle, BundlePayload, Dispatch, DispatchState}
use codex_post_office.Kernel.Transaction.{Tx, require, reading, row, modify, pure, ◌>>=◌, ◌>>◌}
use codex_post_office.Runtime.Courier.{Visit, Courier, courier}
use codex_post_office.Runtime.Dispatches.{
  is_dispatch, attempt_of, destination_is_active, raise_attention, record_runtime_receipt,
}

-- The result: the leased dispatch with its token, if one was available, and those that were held.
pub data Claimed : Type 0 where
  nothing_available : List ℕ → Claimed
  leased_dispatch : Dispatch → ℕ → ℕ → Claimed

abbrev pub is_ready : DispatchState → Bool
is_ready DispatchState.ready = true
is_ready _ = false

-- `ORDER BY created_at,dispatch_id`
abbrev comes_before : Dispatch → Dispatch → Bool
comes_before d o =
    ltb d.created_at o.created_at
    || (d.created_at == o.created_at && leb d.dispatch_id o.dispatch_id)

abbrev pub place : Dispatch → List Dispatch → List Dispatch
place d [] = d ∷ []
place d (o ∷ os) = let rest = place d os in if comes_before d o then d ∷ o ∷ os else o ∷ rest

abbrev pub in_order : List Dispatch → List Dispatch
in_order [] = []
in_order (d ∷ ds) = place d (in_order ds)

abbrev wanted : Option ℕ → Dispatch → Bool
wanted none d = true
wanted (some id) d = d.dispatch_id == id

abbrev pub is_candidate : ℕ → Option ℕ → Dispatch → Bool
is_candidate now id d = is_ready d.state && (leb d.next_attempt_at now && wanted id d)

unfoldable pub candidates : ℕ → Option ℕ → Hub → List Dispatch
candidates now id h = in_order (select (is_candidate now id) h.dispatches)

abbrev pub destination_of_dispatch : Dispatch → Json
destination_of_dispatch d = obj (
    ("endpointId", num d.destination_endpoint_id)
    ∷ ("mailboxId", num d.destination_mailbox_id)
    ∷ ("generation", num d.destination_generation)
    ∷ [])

abbrev pub ready_at : ℕ → Dispatch → Bool
ready_at id d = is_dispatch id d && is_ready d.state

-- A ready dispatch whose destination is not active waits for reconciliation.
unfoldable pub hold_dispatch : Visit → Dispatch → Tx ℕ
hold_dispatch v d = do
  modify λ h. record h {
    dispatches =
        update (ready_at d.dispatch_id)
          (λ o. record o {
            state = DispatchState.reconciliation_required;
            last_error_code = some "PON_DESTINATION_INACTIVE";
            updated_at = v.now;
          })
          h.dispatches;
  }
  raise_attention v "TransportDispatch" d.dispatch_id "ERROR" "PON_DESTINATION_INACTIVE"
      (destination_of_dispatch d)

-- The loop over the candidates: the held ones, and the first with an active destination.
unfoldable pub choose : Visit → List ℕ → List Dispatch → Tx (List ℕ × Option Dispatch)
choose v held [] = pure (held, none)
choose v held (d ∷ ds) = do
  active ← reading λ h. ok (
      destination_is_active h d.destination_endpoint_id d.destination_mailbox_id
        d.destination_generation)
  if active
      then pure (held, some d)
      else hold_dispatch v d >> choose v (held ++ d.dispatch_id ∷ []) ds

abbrev has_copy : Hub → ℕ → Bool
has_copy h sha256 = any (λ c. c.content_sha256 == sha256) h.copies

-- every payload of the bundle has a storage copy, or the bundle itself has one
abbrev pub in_custody : Hub → Bundle → Bool
in_custody h b = all (λ (p : BundlePayload). has_copy h p.sha256) b.payloads || has_copy h b.sha256

abbrev pub bundle_of : Hub → ℕ → Option Bundle
bundle_of h id = find (λ (b : Bundle). b.bundle_id == id) h.bundles

-- instants are counted in microseconds
abbrev pub expiry : ℕ → ℕ → ℕ
expiry read_at lease_seconds = read_at + lease_seconds * 1000000

abbrev pub leased : ℕ → ℕ → ℕ → ℕ → Dispatch → Dispatch
leased owner token_sha256 expires now d = record d {
  state = DispatchState.leased;
  lease_owner_actor_id = some owner;
  lease_token_sha256 = some token_sha256;
  lease_expires_at = some expires;
  attempt_count = d.attempt_count + 1;
  updated_at = now;
}

module _ (sha256_json : Json → ℕ) (sha256_bytes : ℕ → ℕ) where
  -- The lease of the chosen dispatch, with the token that `secrets` gives.
  unfoldable pub lease_dispatch : Visit → Courier → ℕ → ℕ → Dispatch → Tx Claimed
  lease_dispatch v k token lease_seconds d = do
    let expires = expiry v.checked_at lease_seconds
    modify λ h. record h {
      dispatches =
          update (ready_at d.dispatch_id)
            (leased k.actor.actor_id (sha256_bytes token) expires v.now) h.dispatches;
    }
    receipt ←
        record_runtime_receipt sha256_json v d.dispatch_id "LEASED"
          (obj (("actorId", num k.actor.actor_id) ∷ ("expiresAt", num expires) ∷ []))
    t ← row (λ h. attempt_of h d.transport_attempt_id) (raised Code.internal_error)
    b ← row (λ h. bundle_of h t.bundle_id) (raised Code.internal_error)
    require (λ h. in_custody h b) (raised Code.custody_not_verified)
    pure (leased_dispatch d token expires)

  unfoldable pub lease_chosen : Visit → Courier → ℕ → ℕ → List ℕ × Option Dispatch → Tx Claimed
  lease_chosen v k token lease_seconds (held, none) = pure (nothing_available held)
  lease_chosen v k token lease_seconds (held, some d) = lease_dispatch v k token lease_seconds d

  -- `claim_next_transport`
  unfoldable pub claim_next_transport : Visit → ℕ → ℕ → Option ℕ → Tx Claimed
  claim_next_transport v token lease_seconds dispatch_id = do
    require (λ _. leb 30 lease_seconds && leb lease_seconds 1800) (raised Code.input_invalid)
    k ← reading (courier sha256_bytes v)
    ds ← reading (λ h. ok (candidates v.now dispatch_id h))
    chosen ← choose v [] ds
    lease_chosen v k token lease_seconds chosen
