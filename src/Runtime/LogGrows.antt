-- ===== src/Runtime/LogGrows.antt =====
-- What the runtime's calls do to the event log.
use codex_post_office.Base.{
  ℕ, zero, suc, ◌≡◌, refl, String, Bool, true, false, Option, none, some, List, [], ◌∷◌, Json, ok,
  contains, if◌then◌else◌,
}
use codex_post_office.Hub.{Hub, Attempt, Attention, Dispatch, Message}
use codex_post_office.Kernel.Transaction.{Tx, pure, ◌>>=◌, ◌>>◌}
use codex_post_office.Kernel.Events.Growth.{IsHistory}
use codex_post_office.Kernel.Grows.{
  Quiet, Quiet-pure, Quiet-reading, Quiet-require, Quiet-row, Quiet-modify, Quiet-bind, Grows,
  Grows-Quiet, Grows-bind, Grows-bind-Quiet, Grows-position, GrowsAt-append, GrowsAt-bind,
  GrowsAt-bind-Quiet,
}
use codex_post_office.Runtime.Courier.{Visit, Courier}
use codex_post_office.Runtime.Dispatches.{
  record_runtime_receipt, insert_attention, raise_attention, resolve_attention, resolve_dispatch,
  resolve_attempt, resolve_previous, resolve_superseded_attention,
}
use codex_post_office.Runtime.Complete.{
  Evidence, Completed, mark_delivered, complete_locked, complete_transport,
}
use codex_post_office.Runtime.Claim.{
  hold_dispatch, choose, lease_dispatch, lease_chosen, claim_next_transport,
}
use codex_post_office.Runtime.Reconcile.{
  Observation, Verdict, delivered, absent, unknown, is_leased, Round, requeue_dispatch,
  hold_ambiguous, recover, recover_all, resolve_all, reconcile_leases,
}

Quiet-if : {A : Type 0} (b : Bool) (m k : Tx A) → Quiet m → Quiet k → Quiet (if b then m else k)
Quiet-if true m k qm qk = qm
Quiet-if false m k qm qk = qk

Quiet-record_receipt :
    (sha256_json : Json → ℕ) (v : Visit) (id : ℕ) (kind : String) (evidence : Json)
    → Quiet (record_runtime_receipt sha256_json v id kind evidence)
unfolding record_runtime_receipt
Quiet-record_receipt sha256_json v id kind evidence =
    Quiet-bind _ _ (Quiet-modify _ (λ h. refl)) λ _. Quiet-pure _

Quiet-insert_attention : (o : Option Attention) (a : Attention) → Quiet (insert_attention o a)
unfolding insert_attention
Quiet-insert_attention none a = Quiet-bind _ _ (Quiet-modify _ (λ h. refl)) λ _. Quiet-pure _
Quiet-insert_attention (some o) a = Quiet-pure _

Quiet-raise_attention :
    (v : Visit) (kind : String) (id : ℕ) (severity reason : String) (details : Json)
    → Quiet (raise_attention v kind id severity reason details)
unfolding raise_attention
Quiet-raise_attention v kind id severity reason details =
    Quiet-bind _ _ (Quiet-reading _) λ o. Quiet-insert_attention o _

Quiet-resolve_attention : (now id : ℕ) → Quiet (resolve_attention now id)
unfolding resolve_attention
Quiet-resolve_attention now id = Quiet-bind _ _ (Quiet-require _ _) λ _. Quiet-modify _ (λ h. refl)

Quiet-resolve_dispatch : (now : ℕ) (o : Option Dispatch) → Quiet (resolve_dispatch now o)
Quiet-resolve_dispatch now none = Quiet-pure _
Quiet-resolve_dispatch now (some d) = Quiet-resolve_attention now d.dispatch_id

Quiet-resolve_attempt :
    (now : ℕ) (rest : Option ℕ → Tx (Unit {0})) (id : ℕ) (o : Option Attempt)
    → ((next : Option ℕ) → Quiet (rest next))
    → Quiet (resolve_attempt now rest id o)
Quiet-resolve_attempt now rest id none q = Quiet-pure _
Quiet-resolve_attempt now rest id (some t) q =
    Quiet-bind _ _ (Quiet-reading _)
      λ d. Quiet-bind _ _ (Quiet-resolve_dispatch now d) λ _. q t.canonical_attempt_id

Quiet-resolve_previous :
    (fuel now : ℕ) (seen : List ℕ) (o : Option ℕ) → Quiet (resolve_previous fuel now seen o)
unfolding resolve_previous
Quiet-resolve_previous zero now seen o = Quiet-pure _
Quiet-resolve_previous (suc fuel) now seen none = Quiet-pure _
Quiet-resolve_previous (suc fuel) now seen (some id) =
    Quiet-if (contains id seen) _ _ (Quiet-pure _) (
      Quiet-bind _ _ (Quiet-reading _) λ o.
        Quiet-resolve_attempt now _ id o λ next. Quiet-resolve_previous fuel now (id ∷ seen) next)

Quiet-resolve_superseded : (now : ℕ) (t : Attempt) → Quiet (resolve_superseded_attention now t)
unfolding resolve_superseded_attention
Quiet-resolve_superseded now t = Quiet-resolve_previous 32 now [] t.canonical_attempt_id

Quiet-resolve_all : (now : ℕ) (ts : List Attempt) → Quiet (resolve_all now ts)
unfolding resolve_all
Quiet-resolve_all now [] = Quiet-pure _
Quiet-resolve_all now (t ∷ ts) =
    Quiet-bind _ _ (Quiet-resolve_superseded now t) λ _. Quiet-resolve_all now ts

Quiet-hold_dispatch : (v : Visit) (d : Dispatch) → Quiet (hold_dispatch v d)
unfolding hold_dispatch
Quiet-hold_dispatch v d =
    Quiet-bind _ _ (Quiet-modify _ (λ h. refl)) λ _. Quiet-raise_attention v _ _ _ _ _

Quiet-choose : (v : Visit) (held : List ℕ) (ds : List Dispatch) → Quiet (choose v held ds)
unfolding choose
Quiet-choose v held [] = Quiet-pure _
Quiet-choose v held (d ∷ ds) = Quiet-bind _ _ (Quiet-reading _) λ active.
    Quiet-if active _ _ (Quiet-pure _)
      (Quiet-bind _ _ (Quiet-hold_dispatch v d) λ _. Quiet-choose v _ ds)

module _ (sha256_json : Json → ℕ) (sha256_bytes : ℕ → ℕ) (v : Visit) where
  Quiet-lease_chosen :
      (k : Courier) (token seconds : ℕ) (chosen : List ℕ × Option Dispatch)
      → Quiet (lease_chosen sha256_json sha256_bytes v k token seconds chosen)
  unfolding lease_chosen lease_dispatch
  Quiet-lease_chosen k token seconds (held, none) = Quiet-pure _
  Quiet-lease_chosen k token seconds (held, some d) =
      Quiet-bind _ _ (Quiet-modify _ (λ h. refl)) λ _.
        Quiet-bind _ _ (Quiet-record_receipt sha256_json v _ _ _) λ _.
          Quiet-bind _ _ (Quiet-row _ _) λ _.
            Quiet-bind _ _ (Quiet-row _ _) λ _. Quiet-bind _ _ (Quiet-require _ _) λ _. Quiet-pure _

  pub Quiet-claim :
      (token seconds : ℕ) (id : Option ℕ)
      → Quiet (claim_next_transport sha256_json sha256_bytes v token seconds id)
  unfolding claim_next_transport
  Quiet-claim token seconds id = Quiet-bind _ _ (Quiet-require _ _) λ _.
      Quiet-bind _ _ (Quiet-reading _) λ k. Quiet-bind _ _ (Quiet-reading _) λ ds.
        Quiet-bind _ _ (Quiet-choose v _ ds) λ chosen. Quiet-lease_chosen k token seconds chosen

  Quiet-mark_delivered :
      (d : Dispatch) (t : Attempt) (m : Message) (e : Evidence) → Quiet (mark_delivered v d t m e)
  unfolding mark_delivered
  Quiet-mark_delivered d t m e =
      Quiet-bind _ _ (Quiet-modify _ (λ h. refl))
        λ _. Quiet-bind _ _ (Quiet-modify _ (λ h. refl)) λ _. Quiet-modify _ (λ h. refl)

  Quiet-completion :
      (d : Dispatch) (t : Attempt) (evidence : Json) (r : ℕ → Completed)
      → Quiet (
          record_runtime_receipt sha256_json v d.dispatch_id "DELIVERED" evidence >>= λ receipt.
          resolve_attention v.now d.dispatch_id
          >> (resolve_superseded_attention v.now t >> pure (r receipt)))
  Quiet-completion d t evidence r = Quiet-bind _ _ (Quiet-record_receipt sha256_json v _ _ _) λ _.
      Quiet-bind _ _ (Quiet-resolve_attention _ _)
        λ _. Quiet-bind _ _ (Quiet-resolve_superseded _ t) λ _. Quiet-pure _

  complete_locked-Grows :
      (k : Courier) (d : Dispatch) (e : Evidence)
      → Grows sha256_json (complete_locked sha256_json v k d e)
  unfolding complete_locked
  complete_locked-Grows k d e = Grows-bind-Quiet sha256_json _ _ (Quiet-row _ _) λ t.
      Grows-bind-Quiet sha256_json _ _ (Quiet-row _ _) λ m. Grows-position sha256_json _ _ _ _ λ at.
        GrowsAt-bind-Quiet sha256_json _ _ _ _ _ _ (Quiet-mark_delivered d t m e) λ _.
          GrowsAt-bind-Quiet sha256_json _ _ _ _ _ _ (Quiet-row _ _) λ updated.
            GrowsAt-bind-Quiet sha256_json _ _ _ _ _ _ (Quiet-modify _ (λ h. refl)) λ _.
              GrowsAt-bind sha256_json _ _ _ _ _ _ (GrowsAt-append sha256_json _ at refl)
                λ event. Grows-Quiet sha256_json _ (Quiet-completion d t _ _)

  complete_transport-Grows :
      (id token marker : ℕ) (observed : Option ℕ)
      → Grows sha256_json (complete_transport sha256_json sha256_bytes v id token marker observed)
  unfolding complete_transport
  complete_transport-Grows id token marker observed =
      Grows-bind-Quiet sha256_json _ _ (Quiet-reading _) λ k.
        Grows-bind-Quiet sha256_json _ _ (Quiet-row _ _) λ d.
          Grows-bind-Quiet sha256_json _ _ (Quiet-require _ _) λ _.
            Grows-bind-Quiet sha256_json _ _ (Quiet-require _ _) λ _.
              Grows-bind-Quiet sha256_json _ _ (Quiet-require _ _) λ _.
                Grows-bind-Quiet sha256_json _ _ (Quiet-require _ _) λ _.
                  Grows-bind-Quiet sha256_json _ _ (Quiet-row _ _) λ r. complete_locked-Grows k d _

  Quiet-requeue : (d : Dispatch) → Quiet (requeue_dispatch sha256_json v d)
  unfolding requeue_dispatch
  Quiet-requeue d = Quiet-bind _ _ (Quiet-modify _ (λ h. refl)) λ _.
      Quiet-bind _ _ (Quiet-record_receipt sha256_json v _ _ _) λ _. Quiet-resolve_attention _ _

  Quiet-hold_ambiguous : (d : Dispatch) → Quiet (hold_ambiguous v d)
  unfolding hold_ambiguous
  Quiet-hold_ambiguous d =
      Quiet-bind _ _ (Quiet-modify _ (λ h. refl)) λ _. Quiet-raise_attention v _ _ _ _ _

  recover-Grows :
      (k : Courier) (d : Dispatch) (x : Verdict) → Grows sha256_json (recover sha256_json v k d x)
  unfolding recover
  recover-Grows k d (delivered e) =
      Grows-bind sha256_json _ _ (complete_locked-Grows k d e)
        λ _. Grows-Quiet sha256_json _ (Quiet-pure _)
  recover-Grows k d absent =
      Grows-Quiet sha256_json _ (Quiet-bind _ _ (Quiet-requeue d) λ _. Quiet-pure _)
  recover-Grows k d unknown = Grows-Quiet sha256_json _ (
      Quiet-if (is_leased d.state) _ _ (Quiet-bind _ _ (Quiet-hold_ambiguous d) λ _. Quiet-pure _)
        (Quiet-pure _))

  recover_all-Grows :
      (k : Courier) (observations : ℕ → Option Observation) (ds : List Dispatch)
      → Grows sha256_json (recover_all sha256_json v k observations ds)
  unfolding recover_all
  recover_all-Grows k observations [] = Grows-Quiet sha256_json _ (Quiet-pure _)
  recover_all-Grows k observations (d ∷ ds) = Grows-bind sha256_json _ _ (recover-Grows k d _) λ _.
      Grows-bind sha256_json _ _ (recover_all-Grows k observations ds)
        λ _. Grows-Quiet sha256_json _ (Quiet-pure _)

  reconcile_leases-Grows :
      (observations : ℕ → Option Observation)
      → Grows sha256_json (reconcile_leases sha256_json sha256_bytes v observations)
  unfolding reconcile_leases
  reconcile_leases-Grows observations = Grows-bind-Quiet sha256_json _ _ (Quiet-reading _) λ k.
      Grows-bind-Quiet sha256_json _ _ (Quiet-reading _) λ expired.
        Grows-bind-Quiet sha256_json _ _ (Quiet-reading _) λ awaiting.
          Grows-bind sha256_json _ _ (recover_all-Grows k observations _) λ _.
            Grows-bind-Quiet sha256_json _ _ (Quiet-reading _) λ ts.
              Grows-bind-Quiet sha256_json _ _ (Quiet-resolve_all _ ts)
                λ _. Grows-Quiet sha256_json _ (Quiet-pure _)

-- A delivery that is completed leaves a verified event log verified.
pub complete_transport-IsHistory :
    (sha256_json : Json → ℕ) (sha256_bytes : ℕ → ℕ) (v : Visit) (id token marker : ℕ)
    (observed : Option ℕ) (h g : Hub) (r : Completed)
    → IsHistory sha256_json h.events
    → complete_transport sha256_json sha256_bytes v id token marker observed h ≡ ok (r, g)
    → IsHistory sha256_json g.events
complete_transport-IsHistory sha256_json sha256_bytes v id token marker observed h g r history
      done =
    (complete_transport-Grows sha256_json sha256_bytes v id token marker observed).at h r g history
      done

-- A reconciliation of leases, whatever was observed, leaves a verified event log verified.
pub reconcile_leases-IsHistory :
    (sha256_json : Json → ℕ) (sha256_bytes : ℕ → ℕ) (v : Visit)
    (observations : ℕ → Option Observation) (h g : Hub) (r : Round)
    → IsHistory sha256_json h.events
    → reconcile_leases sha256_json sha256_bytes v observations h ≡ ok (r, g)
    → IsHistory sha256_json g.events
reconcile_leases-IsHistory sha256_json sha256_bytes v observations h g r history done =
    (reconcile_leases-Grows sha256_json sha256_bytes v observations).at h r g history done
