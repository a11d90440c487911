-- ===== src/Runtime/Evidence.antt =====
-- What a completed delivery rests on.
use codex_post_office.Base.{
  found-some, ℕ, ◌≡◌, refl, ap, Bool, true, false, ◌&&◌, Option, some, Json, ◌==◌, check, is_some,
  same_option→eq, ok, Failure, arith,
}
use codex_post_office.Hub.{Hub, Dispatch}
use codex_post_office.Kernel.Steps.{read-then}
use codex_post_office.Runtime.Courier.{Visit, Courier, courier}
use codex_post_office.Runtime.Dispatches.{dispatch_of}
use codex_post_office.Runtime.Complete.{Completed, is_leased, lease_runs, complete_transport}

check-true : (b : Bool) (x : Failure) (u : Unit {0}) → check b x ≡ ok u → b ≡ true
check-true true x u e = refl
check-true false x u e = absurd (ground arith)

==-eq : (a b : ℕ) → a == b ≡ true → a ≡ b
==-eq a b e = ground arith

both-true : (a b : Bool) → (a && b) ≡ true → (a ≡ true) × (b ≡ true)
both-true a b e = (ground arith, ground arith)

module _ (sha256_bytes : ℕ → ℕ) (v : Visit) (id token marker : ℕ) (observed : Option ℕ) where
  -- The dispatch is leased by the courier that calls, under the token that it gives, the lease runs,
  -- and the evidence carries the dispatch's marker and a receipt.
  abbrev pub IsEvidenced : Hub → Type 0
  IsEvidenced h =
      (k : Courier) × (d : Dispatch) × (courier sha256_bytes v h ≡ ok k)
      × (dispatch_of h id ≡ some d)
      × (is_leased d.state ≡ true)
      × (d.lease_owner_actor_id ≡ some k.actor.actor_id)
      × (d.lease_token_sha256 ≡ some (sha256_bytes token))
      × (lease_runs d.lease_expires_at v.checked_at ≡ true)
      × (marker ≡ d.observable_marker)
      × (is_some observed ≡ true)

  -- A delivery is completed only for a dispatch that the calling courier holds under a running
  -- lease, with the lease's token, the dispatch's own marker and a receipt.
  pub complete_transport-evidence :
      (sha256_json : Json → ℕ) (h g : Hub) (r : Completed)
      → complete_transport sha256_json sha256_bytes v id token marker observed h ≡ ok (r, g)
      → IsEvidenced h
  unfolding complete_transport
  complete_transport-evidence sha256_json h g r done = read-then _ _ h done λ k known rest1.
      read-then _ _ h rest1 λ d there rest2. read-then _ _ h rest2 λ u2 leased rest3.
        read-then _ _ h rest3 λ u3 token_given rest4. read-then _ _ h rest4 λ u4 running rest5.
          read-then _ _ h rest5 λ u5 marked rest6. read-then _ _ h rest6 λ receipt seen rest7.
            let (held, owned) = both-true _ _ (check-true _ _ u2 leased) in
            (
              k,
              d,
              known,
              found-some _ _ d there,
              held,
              same_option→eq _ _ owned,
              same_option→eq _ _ (check-true _ _ u3 token_given),
              check-true _ _ u4 running,
              ==-eq _ _ (check-true _ _ u5 marked),
              ap is_some (found-some _ _ receipt seen),
            )
