-- ===== src/Kernel/Mutations/Reconciliation.antt =====
-- hub.reconcile.preview and hub.reconcile.apply.
use codex_post_office.Base.{
  ℕ, ◌+◌, Bool, true, false, not, ◌&&◌, Option, none, some, List, [], ◌∷◌, ◌++◌, map, Json, null,
  num, str, arr, obj, nums, all, any, find, select, update, length, order_by, distinct, ◌==◌,
  is_some, ok, raised, integrity_error, Code,
}
use codex_post_office.Hub.{
  Hub, Observation, ObservationState, Verdict, matched, PlannedAction, ReconciliationPlan,
  ReconciliationState, previewed, applied,
}
use codex_post_office.Kernel.Transaction.{Tx, pure, require, reading, row, modify, ◌>>=◌, ◌>>◌}
use codex_post_office.Kernel.Documents.{sorted}
use codex_post_office.Kernel.Documents.Catalogue.{
  shadow_observation_state, planned_action_document, reconciliation_plan_state,
}
use codex_post_office.Kernel.Events.Query.{aggregate_root, aggregate_position}
use codex_post_office.Kernel.Authority.Call.{Call}
use codex_post_office.Kernel.Authority.Basis.{prepare_mutation_authority}
use codex_post_office.Kernel.Authority.Finalize.{Response, finalize_mutation}
use codex_post_office.Kernel.Mutations.Common.{facts, no_link, require_aggregate, require_id}

abbrev is_reconciliation : ℕ → ReconciliationPlan → Bool
is_reconciliation id p = p.plan_id == id

abbrev reconciliation_of : Hub → ℕ → Option ReconciliationPlan
reconciliation_of h id = find (is_reconciliation id) h.reconciliation_plans

abbrev set_reconciliation : ℕ → (ReconciliationPlan → ReconciliationPlan) → Hub → Hub
set_reconciliation id change h = record h {
  reconciliation_plans = update (is_reconciliation id) change h.reconciliation_plans;
}

abbrev pub is_pending : ObservationState → Bool
is_pending ObservationState.pending = true
is_pending _ = false

abbrev pub is_match : Verdict → Bool
is_match matched = true
is_match _ = false

abbrev pub is_previewed : ReconciliationState → Bool
is_previewed previewed = true
is_previewed _ = false

-- the open observations, by identifier
unfoldable pub open_observations : Hub → List Observation
open_observations h =
    order_by (λ (o : Observation). o.observation_id)
      (select (λ o. is_pending o.state) h.observations)

-- Matches are resolved automatically, all else is for review.
abbrev pub planned_action : Observation → PlannedAction
planned_action o = record {
  observation_id = o.observation_id;
  is_automatic = is_match o.verdict;
  verdict = o.verdict;
}

-- an open match, which the UPDATE resolves
abbrev pub is_resolvable : ℕ → Observation → Bool
is_resolvable id o = o.observation_id == id && is_pending o.state && is_match o.verdict

abbrev pub resolved_at : ℕ → Observation → Observation
resolved_at now o = record o { state = ObservationState.resolved; resolved_at = some now }

-- The loop over the actions: each UPDATE must change exactly one row.
unfoldable pub resolve_observations : ℕ → List PlannedAction → Tx (Unit {0})
resolve_observations now [] = pure tt
resolve_observations now (a ∷ as') = do
  require (λ h. length (select (is_resolvable a.observation_id) h.observations) == 1)
      (raised Code.concurrency_conflict)
  modify λ h. record h {
    observations = update (is_resolvable a.observation_id) (resolved_at now) h.observations;
  }
  resolve_observations now as'

module _ (sha256_json : Json → ℕ) where
  abbrev reconciliation_root : ℕ → Json → ℕ
  reconciliation_root id detail = aggregate_root sha256_json "ReconciliationPlan" id detail

  -- `identity`: what the root of the plan stands for
  pub identity : ℕ → List ℕ → List Observation → Json
  identity snapshot_root assertion_ids os = obj (
      ("snapshotRoot", num snapshot_root)
      ∷ ("assertionSetRoot", num (sha256_json (arr (nums assertion_ids))))
      ∷ ("observationSetRoot", num (sha256_json (arr (map shadow_observation_state os))))
      ∷ ("actions", arr (map (λ o. planned_action_document (planned_action o)) os))
      ∷ [])

  pub new_reconciliation : ℕ → ℕ → List ℕ → List Observation → ReconciliationPlan
  new_reconciliation id snapshot_root assertion_ids os = record {
    plan_id = id;
    snapshot_root = snapshot_root;
    assertion_set_root = sha256_json (arr (nums assertion_ids));
    observation_set_root = sha256_json (arr (map shadow_observation_state os));
    planned_actions = map planned_action os;
    plan_root = sha256_json (identity snapshot_root assertion_ids os);
    state = previewed;
    aggregate_version = 1;
    aggregate_root = 0;
    applied_at = none;
    applied_event_id = none;
  }

  -- hub.reconcile.preview
  unfoldable pub preview_reconciliation : Call → ℕ → List ℕ → Tx Response
  preview_reconciliation c snapshot_root assertion_ids = do
    let id = c.request.aggregate_id
    require (λ h. not (is_some (reconciliation_of h id))) (raised Code.concurrency_conflict)
    require_aggregate c.request "ReconciliationPlan" id 0 (reconciliation_root id null)
    basis ← prepare_mutation_authority c (facts [] [] [] [])
    os ← reading (λ h. ok (open_observations h))
    let plan = new_reconciliation id snapshot_root (sorted (distinct assertion_ids)) os
    require (λ h. not (any (λ p. p.plan_root == plan.plan_root) h.reconciliation_plans))
        integrity_error
    modify λ h. record h { reconciliation_plans = h.reconciliation_plans ++ plan ∷ [] }
    created ← row (λ h. reconciliation_of h id) (raised Code.internal_error)
    let after_root = reconciliation_root id (reconciliation_plan_state created)
    modify (set_reconciliation id (λ p. record p { aggregate_root = after_root }))
    finalize_mutation sha256_json c basis (record {
      before_root = reconciliation_root id null;
      after_root = after_root;
      aggregate_version = 1;
      created_ids = id ∷ [];
      event_result = ("state", str "PREVIEWED") ∷ ("planRoot", num plan.plan_root) ∷ [];
      link = no_link;
    })

  -- hub.reconcile.apply
  unfoldable pub apply_reconciliation : Call → ℕ → ℕ → Tx Response
  apply_reconciliation c id plan_root = do
    require_id c.request id
    p ← row (λ h. reconciliation_of h id) (raised Code.input_invalid)
    require (λ _. is_previewed p.state && p.plan_root == plan_root)
        (raised Code.concurrency_conflict)
    let before_root = reconciliation_root id (reconciliation_plan_state p)
    version ← aggregate_position "ReconciliationPlan" id before_root
    require_aggregate c.request "ReconciliationPlan" id version before_root
    require (λ _. all (λ (a : PlannedAction). a.is_automatic) p.planned_actions)
        (raised Code.reconciliation_ambiguous)
    basis ← prepare_mutation_authority c (facts [] [] [] [])
    resolve_observations c.recorded_at p.planned_actions
    modify (
        set_reconciliation id (λ o. record o {
          state = applied;
          aggregate_version = version + 1;
          applied_at = some c.recorded_at;
        }))
    updated ← row (λ h. reconciliation_of h id) (raised Code.internal_error)
    let after_root = reconciliation_root id (reconciliation_plan_state updated)
    modify (set_reconciliation id (λ o. record o { aggregate_root = after_root }))
    finalize_mutation sha256_json c basis (record {
      before_root = before_root;
      after_root = after_root;
      aggregate_version = version + 1;
      created_ids = [];
      event_result =
          ("state", str "APPLIED")
          ∷ (
            "resolvedObservationIds",
            arr (nums (map (λ (a : PlannedAction). a.observation_id) p.planned_actions)),
          )
          ∷ [];
      link = λ event. set_reconciliation id (λ o. record o { applied_event_id = some event });
    })
