-- ===== src/Runtime/Clash.antt =====
-- The recovery of a dispatch of which an open attention item has a resolved twin (`reconcile_transport`).
use codex_post_office.Base.{
  ℕ, ◌≡◌, refl, ap, true, false, ◌&&◌, Option, none, some, List, ◌∷◌, ◌++◌, Json, String, any,
  any-Mem, ==-refl, is_ok, Result, ok, err, arith, ◌⊎◌, inl, inr, Bool-cases, ◌==◌,
}
use text.Mathlib.TextPositions.{eq_refl}
use mathlib.Core.List.{Memᴰ}
use codex_post_office.Hub.{Hub, Attempt, Attention, Dispatch, Message}
use codex_post_office.Kernel.Transaction.{lifted, ◌>>=◌, reading}
use codex_post_office.Kernel.Events.Append.{Entry, append_hub_event}
use codex_post_office.Kernel.Grows.{append_hub_event-ok}
use codex_post_office.Kernel.Steps.{
  Keeps, Keeps-pure, Keeps-reading, Keeps-modify, Keeps-bind, Blocked, Blocked-here, Blocked-later,
  Result-cases, after-err,
}
use codex_post_office.Runtime.Courier.{Visit, Courier, courier}
use codex_post_office.Runtime.Dispatches.{
  record_runtime_receipt, is_resolved_twin, open_for, resolution_clashes, resolve_attention,
}
use codex_post_office.Runtime.Complete.{Evidence, mark_delivered, complete_locked}
use codex_post_office.Runtime.Reconcile
use codex_post_office.Runtime.Reconcile.{
  Observation, Verdict, Round, judge, judge_marker, expired_dispatches, observed_dispatches,
  requeue_dispatch, recover, recover_all, reconcile_leases,
}

abbrev pub attention_of : Hub → List Attention
attention_of h = h.attention

-- An open item of the dispatch has a resolved twin.
abbrev Clashes : ℕ → List Attention → Type 0
Clashes id items = any (λ a. open_for id a && any (is_resolved_twin a) items) items ≡ true

resolve_attention-Blocked :
    (now id : ℕ) → Blocked attention_of (Clashes id) (resolve_attention now id)
unfolding resolve_attention resolution_clashes reading ◌>>=◌
resolve_attention-Blocked now id = record { at = λ h clash. rw clash refl }

-- The observation is decisive: it shows the delivery, with a receipt, or that nothing was sent.
pub data IsDecisive (d : Dispatch) (o : Observation) : Type 0 where
  delivery : (r : ℕ) → o.marker ≡ some d.observable_marker → o.receipt_id ≡ some r → IsDecisive d o
  absence : o.marker_absent ≡ true → IsDecisive d o

-- An attention item of the dispatch is open, and another one for the same reason is resolved.
pub record HasTwin (id : ℕ) (items : List Attention) : Type 0 where
  pub item : Attention
  pub twin : Attention
  pub is_item : Memᴰ item items
  pub is_twin : Memᴰ twin items
  pub of_dispatch : item.entity_type ≡ "TransportDispatch"
  pub of_this : item.entity_id ≡ id
  pub is_open : item.is_open ≡ true
  pub same_type : twin.entity_type ≡ item.entity_type
  pub same_entity : twin.entity_id ≡ item.entity_id
  pub same_reason : twin.reason_code ≡ item.reason_code
  pub is_resolved : twin.is_open ≡ false

HasTwin-Clashes : (id : ℕ) (items : List Attention) → HasTwin id items → Clashes id items
HasTwin-Clashes id items t =
    let resolved : is_resolved_twin t.item t.twin ≡ true =
      rw
        (
          t.same_type,
          t.same_entity,
          t.same_reason,
          t.is_resolved,
          eq_refl t.item.entity_type,
          ==-refl t.item.entity_id,
          eq_refl t.item.reason_code,
        )
        refl in
    let found = any-Mem (is_resolved_twin t.item) t.twin items t.is_twin resolved in
    let opened : open_for id t.item ≡ true =
      rw (t.of_dispatch, t.of_this, t.is_open, ==-refl id) refl in
    any-Mem (λ a. open_for id a && any (is_resolved_twin a) items) t.item items t.is_item
      (rw (opened, found) refl)

lifted-err : {A : Type 0} (r : Result A) (h : Hub) → is_ok r ≡ false → is_ok (lifted r h) ≡ false
lifted-err (ok a) h failed = absurd (ground arith)
lifted-err (err x) h failed = refl

Decided : Verdict → Type 0
Decided w = ((e : Evidence) × (w ≡ Reconcile.delivered e)) ⊎ (w ≡ Reconcile.absent)

judge_marker-Decided : (d : Dispatch) (m r : Option ℕ) → Decided (judge_marker d true m r)
unfolding Decided
judge_marker-Decided d none r = inr refl
judge_marker-Decided d (some m) none = inr refl
judge_marker-Decided d (some m) (some r) = elim (Bool-cases (m == d.observable_marker)) [
  | inl same ↦ inl (record { marker = m; receipt_id = r }, rw same refl)
  | inr other ↦ inr (rw other refl)
]

judge-Decided : (d : Dispatch) (o : Observation) → IsDecisive d o → Decided (judge d (some o))
unfolding Decided judge
judge-Decided d o (delivery r marked received) = inl (
  record { marker = d.observable_marker; receipt_id = r },
  rw (marked, received, ==-refl d.observable_marker) refl,
)
judge-Decided d o (absence e) = rw e (judge_marker-Decided d o.marker o.receipt_id)

module _ (sha256_json : Json → ℕ) (v : Visit) where
  Keeps-append : (x : Entry) → Keeps attention_of (append_hub_event sha256_json x)
  Keeps-append x = record {
    at = λ h a g e. let (p, q) = append_hub_event-ok sha256_json x h e in ap attention_of q;
  }

  Keeps-record_receipt :
      (id : ℕ) (kind : String) (evidence : Json)
      → Keeps attention_of (record_runtime_receipt sha256_json v id kind evidence)
  unfolding record_runtime_receipt
  Keeps-record_receipt id kind evidence =
      Keeps-bind _ _ _ (Keeps-modify _ _ (λ h. refl)) λ _. Keeps-pure _ _

  Keeps-mark_delivered :
      (d : Dispatch) (t : Attempt) (m : Message) (e : Evidence)
      → Keeps attention_of (mark_delivered v d t m e)
  unfolding mark_delivered
  Keeps-mark_delivered d t m e =
      Keeps-bind _ _ _ (Keeps-modify _ _ (λ h. refl))
        λ _. Keeps-bind _ _ _ (Keeps-modify _ _ (λ h. refl)) λ _. Keeps-modify _ _ (λ h. refl)

  complete_locked-Blocked :
      (k : Courier) (d : Dispatch) (e : Evidence)
      → Blocked attention_of (Clashes d.dispatch_id) (complete_locked sha256_json v k d e)
  unfolding complete_locked
  complete_locked-Blocked k d e = Blocked-later _ _ _ _ (Keeps-reading _ _) λ t.
      Blocked-later _ _ _ _ (Keeps-reading _ _) λ m. Blocked-later _ _ _ _ (Keeps-reading _ _) λ _.
        Blocked-later _ _ _ _ (Keeps-mark_delivered d t m e) λ _.
          Blocked-later _ _ _ _ (Keeps-reading _ _) λ _.
            Blocked-later _ _ _ _ (Keeps-modify _ _ (λ h. refl)) λ _.
              Blocked-later _ _ _ _ (Keeps-append _) λ _.
                Blocked-later _ _ _ _ (Keeps-record_receipt _ _ _)
                  λ _. Blocked-here _ _ _ _ (resolve_attention-Blocked v.now d.dispatch_id)

  requeue_dispatch-Blocked :
      (d : Dispatch)
      → Blocked attention_of (Clashes d.dispatch_id) (requeue_dispatch sha256_json v d)
  unfolding requeue_dispatch
  requeue_dispatch-Blocked d = Blocked-later _ _ _ _ (Keeps-modify _ _ (λ h. refl)) λ _.
      Blocked-later _ _ _ _ (Keeps-record_receipt _ _ _)
        λ _. resolve_attention-Blocked v.now d.dispatch_id

  recover-Blocked :
      (k : Courier) (d : Dispatch) (w : Verdict)
      → Decided w
      → Blocked attention_of (Clashes d.dispatch_id) (recover sha256_json v k d w)
  unfolding recover Decided
  recover-Blocked k d w (inl (e, same)) =
      rw same (Blocked-here _ _ _ _ (complete_locked-Blocked k d e))
  recover-Blocked k d w (inr same) = rw same (Blocked-here _ _ _ _ (requeue_dispatch-Blocked d))

  -- The loop cannot succeed once it comes to the dispatch first.
  recover_all-Blocked :
      (k : Courier) (observations : ℕ → Option Observation) (d : Dispatch) (ds : List Dispatch)
      (o : Observation)
      → observations d.dispatch_id ≡ some o
      → IsDecisive d o
      → Blocked attention_of
          (Clashes d.dispatch_id)
          (recover_all sha256_json v k observations (d ∷ ds))
  unfolding recover_all
  recover_all-Blocked k observations d ds o observed decisive =
      Blocked-here _ _ _ _ (recover-Blocked k d _ (rw observed (judge-Decided d o decisive)))

  -- A reconciliation that comes first to a dispatch of which the delivery, or that nothing was sent,
  -- has been observed, fails as a whole when the dispatch has an open attention item and a resolved
  -- one for the same reason.
  pub reconcile_leases-clash :
      (sha256_bytes : ℕ → ℕ) (observations : ℕ → Option Observation) (d : Dispatch)
      (ds : List Dispatch) (o : Observation) (h : Hub)
      → expired_dispatches v.now h ++ observed_dispatches observations h ≡ d ∷ ds
      → observations d.dispatch_id ≡ some o
      → IsDecisive d o
      → HasTwin d.dispatch_id h.attention
      → is_ok (reconcile_leases sha256_json sha256_bytes v observations h) ≡ false
  unfolding reconcile_leases ◌>>=◌ reading
  reconcile_leases-clash sha256_bytes observations d ds o h first observed decisive twin =
      elim (Result-cases (courier sha256_bytes v h)) [
        | inr failed ↦ after-err _ _ (lifted-err (courier sha256_bytes v h) h failed)
        | inl (k, known) ↦
            let refused =
              (recover_all-Blocked k observations d ds o observed decisive).at h
                (HasTwin-Clashes d.dispatch_id h.attention twin) in
            rw (known, first) (after-err _ _ refused)
      ]
