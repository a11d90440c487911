-- ===== src/Runtime/Resend.antt =====
-- A dispatch becomes ready again only on evidence that nothing was sent.
use codex_post_office.Base.{
  ℕ, zero, suc, ◌≡◌, ◌≢◌, refl, ap, ◌∙◌, Bool, true, false, Option, none, some, List, [], ◌∷◌, Json,
  String, any, update, contains, ◌==◌, if◌then◌else◌, ok, arith, Bool-cases, inl, inr,
}
use codex_post_office.Hub.{Hub, Attempt, Attention, Dispatch}
use codex_post_office.Kernel.Transaction.{Tx, ◌>>=◌, modify}
use codex_post_office.Kernel.Events.Append.{Entry, append_hub_event}
use codex_post_office.Kernel.Grows.{>>=-ok, append_hub_event-ok}
use codex_post_office.Kernel.Steps.{Keeps, Keeps-pure, Keeps-reading, Keeps-modify, Keeps-bind}
use codex_post_office.Runtime.Courier.{Visit, Courier}
use codex_post_office.Runtime.Dispatches.{
  is_dispatch, record_runtime_receipt, insert_attention, raise_attention, resolve_attention,
  resolve_dispatch, resolve_attempt, resolve_previous, resolve_superseded_attention,
}
use codex_post_office.Runtime.Complete.{Evidence, receipted, mark_delivered, complete_locked}
use codex_post_office.Runtime.Claim.{ready_at}
use codex_post_office.Runtime.Reconcile.{
  Observation, Verdict, delivered, absent, unknown, judge, is_leased, Round, requeued, ambiguous,
  requeue_dispatch, hold_ambiguous, recover, recover_all, resolve_all, reconcile_leases,
}

abbrev pub dispatches_of : Hub → List Dispatch
dispatches_of h = h.dispatches

abbrev pub is_ready_again : ℕ → Hub → Bool
is_ready_again id h = any (ready_at id) h.dispatches

-- A step that does not make a dispatch ready.
record Leaves {A : Type 0} (id : ℕ) (m : Tx A) : Type 0 where
  at :
      (h : Hub) (a : A) (g : Hub)
      → m h ≡ ok (a, g)
      → is_ready_again id g ≡ true
      → is_ready_again id h ≡ true

Keeps-if :
    {A : Type 0} (b : Bool) (m k : Tx A)
    → Keeps dispatches_of m
    → Keeps dispatches_of k
    → Keeps dispatches_of (if b then m else k)
Keeps-if true m k km kk = km
Keeps-if false m k km kk = kk

Keeps-record_receipt :
    (sha256_json : Json → ℕ) (v : Visit) (id : ℕ) (kind : String) (evidence : Json)
    → Keeps dispatches_of (record_runtime_receipt sha256_json v id kind evidence)
unfolding record_runtime_receipt
Keeps-record_receipt sha256_json v id kind evidence =
    Keeps-bind _ _ _ (Keeps-modify _ _ (λ h. refl)) λ _. Keeps-pure _ _

Keeps-insert_attention :
    (o : Option Attention) (a : Attention) → Keeps dispatches_of (insert_attention o a)
unfolding insert_attention
Keeps-insert_attention none a = Keeps-bind _ _ _ (Keeps-modify _ _ (λ h. refl)) λ _. Keeps-pure _ _
Keeps-insert_attention (some o) a = Keeps-pure _ _

Keeps-raise_attention :
    (v : Visit) (kind : String) (id : ℕ) (severity reason : String) (details : Json)
    → Keeps dispatches_of (raise_attention v kind id severity reason details)
unfolding raise_attention
Keeps-raise_attention v kind id severity reason details =
    Keeps-bind _ _ _ (Keeps-reading _ _) λ o. Keeps-insert_attention o _

Keeps-resolve_attention : (now id : ℕ) → Keeps dispatches_of (resolve_attention now id)
unfolding resolve_attention
Keeps-resolve_attention now id =
    Keeps-bind _ _ _ (Keeps-reading _ _) λ _. Keeps-modify _ _ (λ h. refl)

Keeps-resolve_dispatch :
    (now : ℕ) (o : Option Dispatch) → Keeps dispatches_of (resolve_dispatch now o)
Keeps-resolve_dispatch now none = Keeps-pure _ _
Keeps-resolve_dispatch now (some d) = Keeps-resolve_attention now d.dispatch_id

Keeps-resolve_attempt :
    (now : ℕ) (rest : Option ℕ → Tx (Unit {0})) (id : ℕ) (o : Option Attempt)
    → ((next : Option ℕ) → Keeps dispatches_of (rest next))
    → Keeps dispatches_of (resolve_attempt now rest id o)
Keeps-resolve_attempt now rest id none q = Keeps-pure _ _
Keeps-resolve_attempt now rest id (some t) q =
    Keeps-bind _ _ _ (Keeps-reading _ _)
      λ d. Keeps-bind _ _ _ (Keeps-resolve_dispatch now d) λ _. q t.canonical_attempt_id

Keeps-resolve_previous :
    (fuel now : ℕ) (seen : List ℕ) (o : Option ℕ)
    → Keeps dispatches_of (resolve_previous fuel now seen o)
unfolding resolve_previous
Keeps-resolve_previous zero now seen o = Keeps-pure _ _
Keeps-resolve_previous (suc fuel) now seen none = Keeps-pure _ _
Keeps-resolve_previous (suc fuel) now seen (some id) =
    Keeps-if (contains id seen) _ _ (Keeps-pure _ _) (
      Keeps-bind _ _ _ (Keeps-reading _ _) λ o.
        Keeps-resolve_attempt now _ id o λ next. Keeps-resolve_previous fuel now (id ∷ seen) next)

Keeps-resolve_superseded :
    (now : ℕ) (t : Attempt) → Keeps dispatches_of (resolve_superseded_attention now t)
unfolding resolve_superseded_attention
Keeps-resolve_superseded now t = Keeps-resolve_previous 32 now [] t.canonical_attempt_id

Keeps-resolve_all : (now : ℕ) (ts : List Attempt) → Keeps dispatches_of (resolve_all now ts)
unfolding resolve_all
Keeps-resolve_all now [] = Keeps-pure _ _
Keeps-resolve_all now (t ∷ ts) =
    Keeps-bind _ _ _ (Keeps-resolve_superseded now t) λ _. Keeps-resolve_all now ts

Keeps-append :
    (sha256_json : Json → ℕ) (x : Entry) → Keeps dispatches_of (append_hub_event sha256_json x)
Keeps-append sha256_json x = record {
  at = λ h a g e. let (p, q) = append_hub_event-ok sha256_json x h e in ap dispatches_of q;
}

module _ (id : ℕ) where
  Leaves-Keeps : {A : Type 0} (m : Tx A) → Keeps dispatches_of m → Leaves id m
  Leaves-Keeps m k = record { at = λ h a g e ready. rw⁻¹ (k.at h a g e) ready }

  Leaves-bind :
      {A B : Type 0} (m : Tx A) (f : A → Tx B)
      → Leaves id m
      → ((a : A) → Leaves id (f a))
      → Leaves id (m >>= f)
  Leaves-bind m f lm lf = record {
    at = λ h b k e ready.
        let (a, g, p, q) = >>=-ok m f h e in lm.at h a g p ((lf a).at g b k q ready);
  }

  Leaves-if :
      {A : Type 0} (b : Bool) (m k : Tx A)
      → Leaves id m
      → Leaves id k
      → Leaves id (if b then m else k)
  Leaves-if true m k lm lk = lm
  Leaves-if false m k lm lk = lk

  any-update :
      (test : Dispatch → Bool) (change : Dispatch → Dispatch) (ds : List Dispatch)
      → ((d : Dispatch) → test d ≡ true → ready_at id (change d) ≡ true → ready_at id d ≡ true)
      → any (ready_at id) (update test change ds) ≡ true
      → any (ready_at id) ds ≡ true
  any-update test change [] leaves ready = ready
  any-update test change (d ∷ ds) leaves ready = elim (Bool-cases (test d)) [
    | inl hit ↦ ground (arith, any-update test change ds leaves, leaves d)
    | inr miss ↦ ground (arith, any-update test change ds leaves)
  ]

  Leaves-update :
      (test : Dispatch → Bool) (change : Dispatch → Dispatch)
      → ((d : Dispatch) → test d ≡ true → ready_at id (change d) ≡ true → ready_at id d ≡ true)
      → Leaves id (modify (λ h. record h { dispatches = update test change h.dispatches }))
  unfolding modify
  Leaves-update test change leaves = record {
    at = λ h a g e ready.
        let done : g.dispatches ≡ update test change h.dispatches = ground arith in
        any-update test change h.dispatches leaves (rw⁻¹ done ready);
  }

  Leaves-receipted :
      (d : Dispatch) (receipt now : ℕ)
      → Leaves id (
          modify (λ h. record h {
            dispatches = update (is_dispatch d.dispatch_id) (receipted receipt now) h.dispatches;
          }))
  Leaves-receipted d receipt now =
      Leaves-update (is_dispatch d.dispatch_id) (receipted receipt now)
        λ o hit ready. absurd (ground arith)

  Leaves-ambiguous :
      (d : Dispatch) (now : ℕ)
      → Leaves id (
          modify (λ h. record h {
            dispatches = update (is_dispatch d.dispatch_id) (ambiguous now) h.dispatches;
          }))
  Leaves-ambiguous d now =
      Leaves-update (is_dispatch d.dispatch_id) (ambiguous now) λ o hit ready. absurd (ground arith)

  -- Another dispatch is made ready.
  Leaves-requeued :
      (d : Dispatch) (now : ℕ)
      → d.dispatch_id == id ≡ false
      → Leaves id (
          modify (λ h. record h {
            dispatches = update (is_dispatch d.dispatch_id) (requeued now) h.dispatches;
          }))
  Leaves-requeued d now other =
      Leaves-update (is_dispatch d.dispatch_id) (requeued now) λ o hit ready. absurd (ground arith)

  module _ (sha256_json : Json → ℕ) (v : Visit) (k : Courier) where
    Leaves-completed :
        (d : Dispatch) (e : Evidence) → Leaves id (complete_locked sha256_json v k d e)
    unfolding complete_locked mark_delivered
    Leaves-completed d e = Leaves-bind _ _ (Leaves-Keeps _ (Keeps-reading _ _)) λ t.
        Leaves-bind _ _ (Leaves-Keeps _ (Keeps-reading _ _)) λ m.
          Leaves-bind _ _ (Leaves-Keeps _ (Keeps-reading _ _)) λ _.
            Leaves-bind _ _
              (Leaves-bind _ _ (Leaves-receipted d e.receipt_id v.now) λ _.
                Leaves-Keeps _ (
                  Keeps-bind _ _ _ (Keeps-modify _ _ (λ h. refl))
                    λ _. Keeps-modify _ _ (λ h. refl)))
              λ _. Leaves-Keeps _ (
                Keeps-bind _ _ _ (Keeps-reading _ _) λ _.
                  Keeps-bind _ _ _ (Keeps-modify _ _ (λ h. refl)) λ _.
                    Keeps-bind _ _ _ (Keeps-append sha256_json _) λ _.
                      Keeps-bind _ _ _ (Keeps-record_receipt sha256_json v _ _ _) λ _.
                        Keeps-bind _ _ _ (Keeps-resolve_attention _ _)
                          λ _. Keeps-bind _ _ _ (Keeps-resolve_superseded _ t) λ _. Keeps-pure _ _)

    Leaves-requeue :
        (d : Dispatch) → d.dispatch_id == id ≡ false → Leaves id (requeue_dispatch sha256_json v d)
    unfolding requeue_dispatch
    Leaves-requeue d other = Leaves-bind _ _ (Leaves-requeued d v.now other) λ _. Leaves-Keeps _ (
        Keeps-bind _ _ _ (Keeps-record_receipt sha256_json v _ _ _)
          λ _. Keeps-resolve_attention _ _)

    Leaves-hold : (d : Dispatch) → Leaves id (hold_ambiguous v d)
    unfolding hold_ambiguous
    Leaves-hold d =
        Leaves-bind _ _ (Leaves-ambiguous d v.now)
          λ _. Leaves-Keeps _ (Keeps-raise_attention v _ _ _ _ _)

    Leaves-recover :
        (d : Dispatch) (x : Verdict)
        → (x ≡ absent → d.dispatch_id == id ≡ false)
        → Leaves id (recover sha256_json v k d x)
    unfolding recover
    Leaves-recover d (delivered e) other =
        Leaves-bind _ _ (Leaves-completed d e) λ _. Leaves-Keeps _ (Keeps-pure _ _)
    Leaves-recover d absent other =
        Leaves-bind _ _ (Leaves-requeue d (other refl)) λ _. Leaves-Keeps _ (Keeps-pure _ _)
    Leaves-recover d unknown other =
        Leaves-if (is_leased d.state) _ _
          (Leaves-bind _ _ (Leaves-hold d) λ _. Leaves-Keeps _ (Keeps-pure _ _))
          (Leaves-Keeps _ (Keeps-pure _ _))

    module _ (observations : ℕ → Option Observation)
        (not_absent : (d : Dispatch) → judge d (observations id) ≢ absent) where
      other_when_absent :
          (d : Dispatch)
          → judge d (observations d.dispatch_id) ≡ absent
          → d.dispatch_id == id ≡ false
      other_when_absent d seen = elim (Bool-cases (d.dispatch_id == id)) [
        | inl same ↦
            absurd (not_absent d (ap (λ i. judge d (observations i)) (same_id d id same) ∙ seen))
        | inr other ↦ other
      ]
        where
          same_id : (d : Dispatch) (i : ℕ) → d.dispatch_id == i ≡ true → i ≡ d.dispatch_id
          same_id d i h = ground arith

      Leaves-recover_all :
          (ds : List Dispatch) → Leaves id (recover_all sha256_json v k observations ds)
      unfolding recover_all
      Leaves-recover_all [] = Leaves-Keeps _ (Keeps-pure _ _)
      Leaves-recover_all (d ∷ ds) =
          Leaves-bind _ _ (Leaves-recover d _ (other_when_absent d))
            λ _. Leaves-bind _ _ (Leaves-recover_all ds) λ _. Leaves-Keeps _ (Keeps-pure _ _)

-- A reconciliation makes a dispatch ready only when the absence of its marker was observed: where
-- no such observation is given for a dispatch, it is not ready afterwards unless it was before.
pub reconcile_leases-no_resend :
    (sha256_json : Json → ℕ) (sha256_bytes : ℕ → ℕ) (v : Visit)
    (observations : ℕ → Option Observation) (id : ℕ) (h g : Hub) (r : Round)
    → ((d : Dispatch) → judge d (observations id) ≢ absent)
    → reconcile_leases sha256_json sha256_bytes v observations h ≡ ok (r, g)
    → is_ready_again id g ≡ true
    → is_ready_again id h ≡ true
unfolding reconcile_leases
reconcile_leases-no_resend sha256_json sha256_bytes v observations id h g r not_absent done ready =
    (Leaves-bind id _ _ (Leaves-Keeps id _ (Keeps-reading _ _)) λ k.
        Leaves-bind id _ _ (Leaves-Keeps id _ (Keeps-reading _ _)) λ expired.
          Leaves-bind id _ _ (Leaves-Keeps id _ (Keeps-reading _ _)) λ awaiting.
            Leaves-bind id _ _ (Leaves-recover_all id sha256_json v k observations not_absent _)
              λ _. Leaves-Keeps id _ (
                Keeps-bind _ _ _ (Keeps-reading _ _)
                  λ ts. Keeps-bind _ _ _ (Keeps-resolve_all _ ts) λ _. Keeps-pure _ _)).at
      h r g done ready
