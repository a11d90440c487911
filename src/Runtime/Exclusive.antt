-- ===== src/Runtime/Exclusive.antt =====
-- A dispatch that has been claimed is not claimed again while it is leased.
use mathlib.Core.Path.{subst}
use codex_post_office.Base.{
  ℕ, ◌≡◌, ◌≢◌, refl, sym, ap, ◌∙◌, Bool, true, false, Option, none, some, List, [], ◌∷◌, Json, all,
  any, select, update, Result, if◌then◌else◌, ok, arith, Bool-cases, inl, inr,
}
use codex_post_office.Hub.{Hub, Dispatch}
use codex_post_office.Kernel.Transaction.{Tx, pure, modify}
use codex_post_office.Kernel.Grows.{>>=-ok}
use codex_post_office.Kernel.Steps.{
  Keeps-pure, Keeps-reading, Keeps-modify, Keeps-bind, Gives, Gives-pure, Gives-bind, Ends,
  Ends-then, read-then,
}
use codex_post_office.Runtime.Courier.{Visit, Courier}
use codex_post_office.Runtime.Dispatches.{record_runtime_receipt}
use codex_post_office.Runtime.Claim.{
  leased_dispatch, place, in_order, is_candidate, candidates, ready_at, leased, expiry, choose,
  lease_dispatch, lease_chosen, claim_next_transport,
}
use codex_post_office.Runtime.Resend.{dispatches_of}

Gives-if :
    {A : Type 0} {P : A → Type 0} (b : Bool) (m k : Tx A)
    → Gives P m
    → Gives P k
    → Gives P (if b then m else k)
Gives-if true m k gm gk = gm
Gives-if false m k gm gk = gk

module _ (test : Dispatch → Bool) where
  all-place :
      (d : Dispatch) (ds : List Dispatch)
      → test d ≡ true
      → all test ds ≡ true
      → all test (place d ds) ≡ true
  all-place d [] t h = ground arith
  all-place d (o ∷ os) t h = ground (arith, all-place d os)

  all-in_order : (ds : List Dispatch) → all test ds ≡ true → all test (in_order ds) ≡ true
  all-in_order [] h = refl
  all-in_order (d ∷ ds) h =
      all-place d (in_order ds) (ground arith) (all-in_order ds (ground arith))

  -- The chosen dispatch is one of those that were offered.
  choose-Gives :
      (v : Visit) (held : List ℕ) (ds : List Dispatch)
      → all test ds ≡ true
      → Gives (λ r. (d : Dispatch) → r.1 ≡ some d → test d ≡ true) (choose v held ds)
  unfolding choose
  choose-Gives v held [] h = Gives-pure _ _ (λ d e. absurd (ground arith))
  choose-Gives v held (d ∷ ds) h = Gives-bind _ _ _ λ active.
      Gives-if active _ _ (Gives-pure _ _ (λ o e. ground arith))
        (Gives-bind _ _ _ λ _. choose-Gives v _ ds (ground arith))

-- of a dispatch: one with its identifier is ready in the list
abbrev is_offered : List Dispatch → Dispatch → Bool
is_offered ds d = any (ready_at d.dispatch_id) ds

select-offered :
    (now : ℕ) (id : Option ℕ) (whole ds : List Dispatch)
    → ((test : Dispatch → Bool) → any test ds ≡ true → any test whole ≡ true)
    → all (is_offered whole) (select (is_candidate now id) ds) ≡ true
select-offered now id whole [] within = refl
select-offered now id whole (d ∷ ds) within =
    let rest = select-offered now id whole ds (λ test h. within test (ground arith)) in
    ground (arith, rest, within (ready_at d.dispatch_id))

candidates-offered :
    (now : ℕ) (id : Option ℕ) (h : Hub) → all (is_offered h.dispatches) (candidates now id h) ≡ true
unfolding candidates
candidates-offered now id h =
    all-in_order (is_offered h.dispatches) (select (is_candidate now id) h.dispatches)
      (select-offered now id h.dispatches h.dispatches (λ test e. e))

update-unready :
    (id owner token expires now : ℕ) (ds : List Dispatch)
    → any (ready_at id) (update (ready_at id) (leased owner token expires now) ds) ≡ false
update-unready id owner token expires now [] = refl
update-unready id owner token expires now (d ∷ ds) = elim (Bool-cases (ready_at id d)) [
  | inl hit ↦ rw hit (ground (arith, update-unready id owner token expires now ds))
  | inr miss ↦ rw miss (rw miss (update-unready id owner token expires now ds))
]

module _ (sha256_json : Json → ℕ) (sha256_bytes : ℕ → ℕ) (v : Visit) where
  lease_dispatch-Gives :
      (k : Courier) (token seconds : ℕ) (d : Dispatch)
      → Gives
          (λ r. r ≡ leased_dispatch d token (expiry v.checked_at seconds))
          (lease_dispatch sha256_json sha256_bytes v k token seconds d)
  unfolding lease_dispatch
  lease_dispatch-Gives k token seconds d = Gives-bind _ _ _ λ _.
      Gives-bind _ _ _
        λ _. Gives-bind _ _ _ λ _. Gives-bind _ _ _ λ _. Gives-bind _ _ _ λ _. Gives-pure _ _ refl

  set_leased-Ends :
      (id owner token expires now : ℕ)
      → Ends dispatches_of
          (λ ds. any (ready_at id) ds ≡ false)
          (modify (λ h. record h {
            dispatches = update (ready_at id) (leased owner token expires now) h.dispatches;
          }))
  unfolding modify
  set_leased-Ends id owner token expires now = record {
    at = λ h u g e.
        let done : g.dispatches
            ≡ update (ready_at id) (leased owner token expires now) h.dispatches =
          ground arith in
        rw done (update-unready id owner token expires now h.dispatches);
  }

  lease_dispatch-Ends :
      (k : Courier) (token seconds : ℕ) (d : Dispatch)
      → Ends dispatches_of
          (λ ds. any (ready_at d.dispatch_id) ds ≡ false)
          (lease_dispatch sha256_json sha256_bytes v k token seconds d)
  unfolding lease_dispatch record_runtime_receipt
  lease_dispatch-Ends k token seconds d =
      Ends-then _ _ _ _ (set_leased-Ends d.dispatch_id _ _ _ _) λ _.
        Keeps-bind _ _ _ (Keeps-bind _ _ _ (Keeps-modify _ _ (λ h. refl)) λ _. Keeps-pure _ _) λ _.
          Keeps-bind _ _ _ (Keeps-reading _ _) λ _.
            Keeps-bind _ _ _ (Keeps-reading _ _)
              λ _. Keeps-bind _ _ _ (Keeps-reading _ _) λ _. Keeps-pure _ _

  -- The claimed dispatch was offered, and is not ready afterwards.
  IsClaim : Dispatch → Hub → Hub → Type 0
  IsClaim d h g =
      (is_offered h.dispatches d ≡ true) × (any (ready_at d.dispatch_id) g.dispatches ≡ false)

  same_dispatch :
      (d o : Dispatch) (t t' e e' : ℕ) → leased_dispatch d t e ≡ leased_dispatch o t' e' → d ≡ o
  same_dispatch d o t t' e e' q = ground arith

  lease_chosen-IsClaim :
      (k : Courier) (token seconds : ℕ) (chosen : List ℕ × Option Dispatch) (d : Dispatch) (t e : ℕ)
      (h f g : Hub)
      → ((o : Dispatch) → chosen.1 ≡ some o → is_offered h.dispatches o ≡ true)
      → lease_chosen sha256_json sha256_bytes v k token seconds chosen f
        ≡ ok (leased_dispatch d t e, g)
      → IsClaim d h g
  unfolding lease_chosen IsClaim pure
  lease_chosen-IsClaim k token seconds (held, none) d t e h f g offered done = absurd (ground arith)
  lease_chosen-IsClaim k token seconds (held, some o) d t e h f g offered done =
      let same =
        same_dispatch d o _ _ _ _ ((lease_dispatch-Gives k token seconds o).at f _ g done) in
      (rw same (offered o refl), rw same ((lease_dispatch-Ends k token seconds o).at f _ g done))

  same_list : {xs ys : List Dispatch} → ◌≡◌ {A = Result (List Dispatch)} (ok xs) (ok ys) → xs ≡ ys
  same_list q = ground arith

  claim_next_transport-IsClaim :
      (token seconds : ℕ) (id : Option ℕ) (d : Dispatch) (t e : ℕ) (h g : Hub)
      → claim_next_transport sha256_json sha256_bytes v token seconds id h
        ≡ ok (leased_dispatch d t e, g)
      → IsClaim d h g
  unfolding claim_next_transport
  claim_next_transport-IsClaim token seconds id d t e h g done =
      read-then _ _ h done λ u ranged rest1. read-then _ _ h rest1 λ k known rest2.
        read-then _ _ h rest2 λ ds listed rest3.
          let offered : all (is_offered h.dispatches) ds ≡ true =
            subst (λ x. all (is_offered h.dispatches) x ≡ true) (same_list listed)
              (candidates-offered v.now id h) in
          let (chosen, f, p, q) = >>=-ok (choose v [] ds) _ h rest3 in
          lease_chosen-IsClaim k token seconds chosen d t e h f g
            ((choose-Gives (is_offered h.dispatches) v [] ds offered).at h chosen f p) q

-- Of two claims in a row, by any couriers at any time, the second does not return the dispatch that
-- the first one returned.
pub claim_next_transport-exclusive :
    (sha256_json : Json → ℕ) (sha256_bytes : ℕ → ℕ) (v v' : Visit)
    (token token' seconds seconds' : ℕ) (id id' : Option ℕ) (d d' : Dispatch) (t t' e e' : ℕ)
    (h g g' : Hub)
    → claim_next_transport sha256_json sha256_bytes v token seconds id h
      ≡ ok (leased_dispatch d t e, g)
    → claim_next_transport sha256_json sha256_bytes v' token' seconds' id' g
      ≡ ok (leased_dispatch d' t' e', g')
    → d'.dispatch_id ≢ d.dispatch_id
unfolding IsClaim
claim_next_transport-exclusive sha256_json sha256_bytes v v' token token' seconds seconds' id id' d
      d' t t' e e' h g g' first second same =
    let taken =
      (claim_next_transport-IsClaim sha256_json sha256_bytes v token seconds id d t e h g
        first).1 in
    let offered =
      (claim_next_transport-IsClaim sha256_json sha256_bytes v' token' seconds' id' d' t' e' g g'
        second).0 in
    let again : any (ready_at d.dispatch_id) g.dispatches ≡ true =
      ap (λ i. any (ready_at i) g.dispatches) (sym same) ∙ offered in
    cc (taken, again)
