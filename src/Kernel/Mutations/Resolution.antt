-- ===== src/Kernel/Mutations/Resolution.antt =====
-- When the loop of hub.reconcile.apply resolves its observations.
use codex_post_office.Base.{
  ℕ, suc, ◌≡◌, refl, sym, ap, ◌∙◌, Bool, true, false, not, ◌&&◌, List, [], ◌∷◌, select, update, any,
  length, ◌==◌, is_ok, Bool-cases, inl, inr, arith,
}
use mathlib.Core.Path.{subst}
use codex_post_office.Hub.{Hub, Observation, PlannedAction}
use codex_post_office.Kernel.Transaction.{◌>>=◌, reading, modify, pure}
use codex_post_office.Kernel.Mutations.Reconciliation.{
  is_resolvable, resolved_at, resolve_observations,
}

-- an observation is one open match
abbrev pub one_match : ℕ → List Observation → Bool
one_match id os = length (select (is_resolvable id) os) == 1

abbrev pub concerns : ℕ → PlannedAction → Bool
concerns id a = a.observation_id == id

-- Each action names one open match, and no two name the same.
unfoldable pub resolves_all : List PlannedAction → List Observation → Bool
resolves_all [] os = true
resolves_all (a ∷ as') os =
    one_match a.observation_id os
    && not (any (concerns a.observation_id) as')
    && resolves_all as' os

resolved-left :
    (id other now : ℕ) (o : Observation) → is_resolvable other (resolved_at now o) ≡ false
resolved-left id other now o = ground arith

none-left :
    (id now : ℕ) (os : List Observation)
    → length (select (is_resolvable id) (update (is_resolvable id) (resolved_at now) os)) ≡ 0
none-left id now [] = refl
none-left id now (o ∷ os) = elim (Bool-cases (is_resolvable id o)) [
  | inl mine ↦ rw mine (rw (resolved-left id id now o) (none-left id now os))
  | inr other ↦ rw other (rw other (none-left id now os))
]

other-left :
    (id other now : ℕ) (os : List Observation)
    → (other == id) ≡ false
    → length (select (is_resolvable other) (update (is_resolvable id) (resolved_at now) os))
      ≡ length (select (is_resolvable other) os)
other-left id other now [] differ = refl
other-left id other now (o ∷ os) differ = elim (Bool-cases (is_resolvable id o)) [
  | inl mine ↦
      let not_other : is_resolvable other o ≡ false = ground (arith, mine, differ) in
      rw mine (rw (resolved-left id other now o) (rw not_other (other-left id other now os differ)))
  | inr unlike ↦ elim (Bool-cases (is_resolvable other o)) [
    | inl kept ↦ rw unlike (rw kept (ap suc (other-left id other now os differ)))
    | inr dropped ↦ rw unlike (rw dropped (other-left id other now os differ))
  ]
]

and-swap : (o a n r : Bool) → (o && a && (n && r)) ≡ (n && (o && a && r))
and-swap o a n r = ground arith

-- The rest of the actions, after the first observation is resolved.
rest-resolves :
    (id now : ℕ) (as' : List PlannedAction) (os : List Observation)
    → resolves_all as' (update (is_resolvable id) (resolved_at now) os)
      ≡ (not (any (concerns id) as') && resolves_all as' os)
unfolding resolves_all
rest-resolves id now [] os = refl
rest-resolves id now (a ∷ as') os = elim (Bool-cases (concerns id a)) [
  | inl same ↦
      let is_id : a.observation_id ≡ id = ground (arith, same) in
      let gone : one_match a.observation_id (update (is_resolvable id) (resolved_at now) os)
          ≡ false =
        subst (λ i. one_match i (update (is_resolvable id) (resolved_at now) os) ≡ false)
          (sym is_id) (rw (none-left id now os) refl) in
      rw (same, gone) refl
  | inr differ ↦ rw differ (
      rw (other-left id a.observation_id now os differ) (
        rw (rest-resolves id now as' os) (
          and-swap (one_match a.observation_id os) (not (any (concerns a.observation_id) as'))
            (not (any (concerns id) as')) (resolves_all as' os))))
]

-- The loop over the planned actions succeeds exactly when each of them names one open match and no
-- two of them the same.
pub resolve_observations-resolves_all :
    (now : ℕ) (as' : List PlannedAction) (h : Hub)
    → is_ok (resolve_observations now as' h) ≡ resolves_all as' h.observations
unfolding resolve_observations resolves_all ◌>>=◌ reading modify pure
resolve_observations-resolves_all now [] h = refl
resolve_observations-resolves_all now (a ∷ as') h =
    elim (Bool-cases (one_match a.observation_id h.observations)) [
      | inl one ↦ rw one (
          resolve_observations-resolves_all now as' (record h {
            observations = update (is_resolvable a.observation_id) (resolved_at now) h.observations;
          })
          ∙ rest-resolves a.observation_id now as' h.observations)
      | inr other ↦ rw other refl
    ]
