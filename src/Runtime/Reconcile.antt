-- ===== src/Runtime/Reconcile.antt =====
-- The second part of `reconcile_transport`: expired leases, and dispatches that wait for evidence.
use codex_post_office.Base.{
  ℕ, Bool, true, false, ◌&&◌, ◌||◌, Option, none, some, List, [], ◌∷◌, ◌++◌, Json, num, str, truth,
  obj, update, select, ◌==◌, if◌then◌else◌, leb, ltb, is_some, ok,
}
use codex_post_office.Hub.{Hub, Attempt, AttemptState, Dispatch, DispatchState}
use codex_post_office.Kernel.Transaction.{Tx, reading, modify, pure, ◌>>=◌, ◌>>◌}
use codex_post_office.Runtime.Courier.{Visit, Courier, courier}
use codex_post_office.Runtime.Dispatches.{
  is_dispatch, raise_attention, record_runtime_receipt, resolve_attention,
  resolve_superseded_attention,
}
use codex_post_office.Runtime.Complete.{Evidence, complete_locked}

-- What an observer reports of a dispatch. No receipt stands for an empty text.
pub record Observation : Type 0 where
  pub marker : Option ℕ
  pub receipt_id : Option ℕ
  pub marker_absent : Bool

-- What an observation shows: the delivery, that nothing was sent, or nothing.
pub data Verdict : Type 0 where
  delivered : Evidence → Verdict
  absent unknown : Verdict

abbrev absent_or_unknown : Bool → Verdict
absent_or_unknown true = absent
absent_or_unknown false = unknown

abbrev pub judge_marker : Dispatch → Bool → Option ℕ → Option ℕ → Verdict
judge_marker d absence (some m) (some r) =
    if m == d.observable_marker
    then delivered (record { marker = m; receipt_id = r })
    else absent_or_unknown absence
judge_marker d absence _ _ = absent_or_unknown absence

unfoldable pub judge : Dispatch → Option Observation → Verdict
judge d none = unknown
judge d (some o) = judge_marker d o.marker_absent o.marker o.receipt_id

abbrev pub is_leased : DispatchState → Bool
is_leased DispatchState.leased = true
is_leased _ = false

abbrev pub awaits_evidence : DispatchState → Bool
awaits_evidence DispatchState.reconciliation_required = true
awaits_evidence _ = false

abbrev pub past_lease : ℕ → Option ℕ → Bool
past_lease now none = false
past_lease now (some t) = leb t now

abbrev pub has_expired : ℕ → Dispatch → Bool
has_expired now d = is_leased d.state && past_lease now d.lease_expires_at

-- `ORDER BY rank,dispatch_id`
abbrev place : (Dispatch → ℕ) → Dispatch → List Dispatch → List Dispatch
place rank d [] = d ∷ []
place rank d (o ∷ os) =
    let rest = place rank d os in
    if ltb (rank d) (rank o) || (rank d == rank o && leb d.dispatch_id o.dispatch_id)
    then d ∷ o ∷ os
    else o ∷ rest

abbrev in_order : (Dispatch → ℕ) → List Dispatch → List Dispatch
in_order rank [] = []
in_order rank (d ∷ ds) = place rank d (in_order rank ds)

abbrev instant : Option ℕ → ℕ
instant none = 0
instant (some t) = t

unfoldable pub expired_dispatches : ℕ → Hub → List Dispatch
expired_dispatches now h =
    in_order (λ d. instant d.lease_expires_at) (select (has_expired now) h.dispatches)

unfoldable pub observed_dispatches : (ℕ → Option Observation) → Hub → List Dispatch
observed_dispatches observations h =
    select (λ d. is_some (observations d.dispatch_id))
      (in_order (λ d. d.updated_at) (select (λ d. awaits_evidence d.state) h.dispatches))

-- the dispatch, ready to be leased again
abbrev pub requeued : ℕ → Dispatch → Dispatch
requeued now d = record d {
  state = DispatchState.ready;
  lease_owner_actor_id = none;
  lease_token_sha256 = none;
  lease_expires_at = none;
  next_attempt_at = now;
  last_error_code = none;
  updated_at = now;
}

abbrev pub ambiguous : ℕ → Dispatch → Dispatch
ambiguous now d = record d {
  state = DispatchState.reconciliation_required;
  last_error_code = some "PON_OBSERVATION_AMBIGUOUS";
  updated_at = now;
}

-- The identifiers that a round adds: of a recovered dispatch, and of an attention item.
abbrev pub Round : Type 0
Round = List ℕ × List ℕ

unfoldable pub hold_ambiguous : Visit → Dispatch → Tx ℕ
hold_ambiguous v d = do
  modify λ h. record h {
    dispatches = update (is_dispatch d.dispatch_id) (ambiguous v.now) h.dispatches;
  }
  raise_attention v "TransportDispatch" d.dispatch_id "ERROR" "PON_OBSERVATION_AMBIGUOUS"
      (obj (("observableMarker", num d.observable_marker) ∷ []))

abbrev pub is_receipted_retry : Attempt → Bool
is_receipted_retry t =
    is_some t.canonical_attempt_id && elim t.state [ AttemptState.receipted ↦ true | _ ↦ false ]

unfoldable pub resolve_all : ℕ → List Attempt → Tx (Unit {0})
resolve_all now [] = pure tt
resolve_all now (t ∷ ts) = resolve_superseded_attention now t >> resolve_all now ts

module _ (sha256_json : Json → ℕ) where
  unfoldable pub requeue_dispatch : Visit → Dispatch → Tx (Unit {0})
  requeue_dispatch v d = do
    modify λ h. record h {
      dispatches = update (is_dispatch d.dispatch_id) (requeued v.now) h.dispatches;
    }
    record_runtime_receipt sha256_json v d.dispatch_id "RECOVERED"
        (obj (("outcome", str "SAFE_REQUEUE") ∷ ("markerAbsent", truth true) ∷ []))
    resolve_attention v.now d.dispatch_id

  -- One round of the loop over expired and observed dispatches.
  unfoldable pub recover : Visit → Courier → Dispatch → Verdict → Tx Round
  recover v k d (delivered e) = complete_locked sha256_json v k d e >> pure (d.dispatch_id ∷ [], [])
  recover v k d absent = requeue_dispatch v d >> pure (d.dispatch_id ∷ [], [])
  recover v k d unknown =
      if is_leased d.state then (do a ← hold_ambiguous v d; pure ([], a ∷ [])) else pure ([], [])

  unfoldable pub recover_all : Visit → Courier → (ℕ → Option Observation) → List Dispatch → Tx Round
  recover_all v k observations [] = pure ([], [])
  recover_all v k observations (d ∷ ds) = do
    r ← recover v k d (judge d (observations d.dispatch_id))
    rest ← recover_all v k observations ds
    pure (r.0 ++ rest.0, r.1 ++ rest.1)

  -- `reconcile_transport`, after the loop that creates the dispatches
  unfoldable pub reconcile_leases : (ℕ → ℕ) → Visit → (ℕ → Option Observation) → Tx Round
  reconcile_leases sha256_bytes v observations = do
    k ← reading (courier sha256_bytes v)
    expired ← reading (λ h. ok (expired_dispatches v.now h))
    awaiting ← reading (λ h. ok (observed_dispatches observations h))
    round ← recover_all v k observations (expired ++ awaiting)
    retries ← reading (λ h. ok (select is_receipted_retry h.attempts))
    resolve_all v.now retries
    pure round
