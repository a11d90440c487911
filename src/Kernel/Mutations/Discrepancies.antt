-- ===== src/Kernel/Mutations/Discrepancies.antt =====
-- hub.reconcile.apply resolves matches only.
use codex_post_office.Base.{
  ℕ, ◌≡◌, refl, ap, Bool, true, false, not, List, [], ◌∷◌, Json, select, update, ok, Bool-cases,
  inl, inr, arith,
}
use codex_post_office.Hub.{Hub, Observation, PlannedAction}
use codex_post_office.Kernel.Steps.{Keeps, Keeps-pure, Keeps-reading, Keeps-modify, Keeps-bind}
use codex_post_office.Kernel.Authority.Call.{Call}
use codex_post_office.Kernel.Authority.Finalize.{Response}
use codex_post_office.Kernel.Authority.Untouched.{Untouched, Keeps-prepare, Keeps-finalize}
use codex_post_office.Kernel.Mutations.Reconciliation.{
  is_match, is_resolvable, resolved_at, resolve_observations, apply_reconciliation,
}

abbrev pub is_discrepancy : Observation → Bool
is_discrepancy o = not (is_match o.verdict)

-- the observations that are no matches
abbrev pub discrepancies : Hub → List Observation
discrepancies h = select is_discrepancy h.observations

untouched : Untouched discrepancies
untouched = record {
  by_actions = λ h as'. refl;
  by_grants = λ h gs. refl;
  by_events = λ h es. refl;
}

resolvable-match : (id : ℕ) (o : Observation) → is_resolvable id o ≡ true → is_discrepancy o ≡ false
resolvable-match id o e = ground (arith, e)

select-resolved :
    (id now : ℕ) (os : List Observation)
    → select is_discrepancy (update (is_resolvable id) (resolved_at now) os)
      ≡ select is_discrepancy os
select-resolved id now [] = refl
select-resolved id now (o ∷ os) = elim (Bool-cases (is_resolvable id o)) [
  | inl mine ↦ rw mine (rw (resolvable-match id o mine) (select-resolved id now os))
  | inr other ↦ elim (Bool-cases (is_discrepancy o)) [
    | inl kept ↦ rw other (rw kept (ap (λ rest. o ∷ rest) (select-resolved id now os)))
    | inr dropped ↦ rw other (rw dropped (select-resolved id now os))
  ]
]

Keeps-resolve :
    (now : ℕ) (as' : List PlannedAction) → Keeps discrepancies (resolve_observations now as')
unfolding resolve_observations
Keeps-resolve now [] = Keeps-pure _ _
Keeps-resolve now (a ∷ as') = Keeps-bind _ _ _ (Keeps-reading _ _) λ _.
    Keeps-bind _ _ _ (Keeps-modify _ _ (λ h. select-resolved a.observation_id now h.observations))
      λ _. Keeps-resolve now as'

-- An applied reconciliation leaves every observation that is no match as it was: a discrepancy is
-- never resolved automatically, whatever actions the retained plan holds.
pub apply_reconciliation-discrepancies :
    (sha256_json : Json → ℕ) (c : Call) (id root : ℕ) (h g : Hub) (r : Response)
    → apply_reconciliation sha256_json c id root h ≡ ok (r, g)
    → discrepancies g ≡ discrepancies h
unfolding apply_reconciliation
apply_reconciliation-discrepancies sha256_json c id root h g r done =
    (Keeps-bind discrepancies _ _ (Keeps-reading _ _) λ _. Keeps-bind _ _ _ (Keeps-reading _ _) λ p.
        Keeps-bind _ _ _ (Keeps-reading _ _) λ _. Keeps-bind _ _ _ (Keeps-reading _ _) λ _.
          Keeps-bind _ _ _ (Keeps-reading _ _) λ _. Keeps-bind _ _ _ (Keeps-reading _ _) λ _.
            Keeps-bind _ _ _ (Keeps-prepare _ untouched c _) λ basis.
              Keeps-bind _ _ _ (Keeps-resolve _ p.planned_actions) λ _.
                Keeps-bind _ _ _ (Keeps-modify _ _ (λ h. refl)) λ _.
                  Keeps-bind _ _ _ (Keeps-reading _ _) λ _.
                    Keeps-bind _ _ _ (Keeps-modify _ _ (λ h. refl))
                      λ _. Keeps-finalize _ untouched sha256_json c basis _ (λ e h. refl)).at
      h r g done
