-- ===== src/Kernel/Mutations/Cycles.antt =====
-- cycle.open, cycle.markAwaitingReview, cycle.accept and cycle.close.
use codex_post_office.Base.{
  ℕ, ◌+◌, String, Bool, true, false, not, ◌&&◌, Option, none, some, List, [], ◌∷◌, ◌++◌, Json, null,
  num, str, opt, update, ◌==◌, same_option, is_some, ok, raised, integrity_error, Code,
}
use codex_post_office.Hub.{Hub, Cycle, CycleState, is_active_project}
use codex_post_office.Kernel.Transaction.{
  Tx, pure, raise, require, reading, row, modify, ◌>>=◌, ◌>>◌,
}
use codex_post_office.Kernel.Documents.Catalogue.{cycle_state}
use codex_post_office.Kernel.Events.Query.{aggregate_root, aggregate_position}
use codex_post_office.Kernel.Authority.Call.{Call}
use codex_post_office.Kernel.Authority.Basis.{Basis, prepare_mutation_authority}
use codex_post_office.Kernel.Authority.Finalize.{Response, finalize_mutation}
use codex_post_office.Kernel.Mutations.Common.{
  project_of, cycle_of, facts, no_link, require_aggregate, require_id,
}

-- An operation on an open cycle, with its parameter.
pub data CycleStep : Type 0 where
  mark_awaiting_review : ℕ → CycleStep
  accept : ℕ → CycleStep
  close : ℕ → CycleStep

-- The operation with its parameters.
pub data CycleOperation : Type 0 where
  open_cycle : ℕ → ℕ → CycleOperation
  step : CycleStep → CycleOperation

abbrev pub is_cycle : ℕ → Cycle → Bool
is_cycle id c = c.cycle_id == id

abbrev reviewable : CycleState → Bool
reviewable CycleState.opened = true
reviewable CycleState.active = true
reviewable _ = false

abbrev is_awaiting : CycleState → Bool
is_awaiting CycleState.awaiting_review = true
is_awaiting _ = false

abbrev is_accepted : CycleState → Bool
is_accepted CycleState.accepted = true
is_accepted _ = false

abbrev pub set_cycle : ℕ → (Cycle → Cycle) → Hub → Hub
set_cycle id change h = record h { cycles = update (is_cycle id) change h.cycles }

abbrev new_cycle : ℕ → ℕ → ℕ → ℕ → Cycle
new_cycle id project scope_text action = record {
  cycle_id = id;
  project_id = project;
  scope_text = scope_text;
  opening_author_action_id = action;
  state = CycleState.opened;
  acceptance_author_action_id = none;
  closure_author_action_id = none;
  aggregate_version = 1;
  aggregate_root = 0;
}

-- The INSERT, whose opening action must not be NULL.
unfoldable pub insert_cycle : ℕ → ℕ → ℕ → Option ℕ → Tx (Unit {0})
insert_cycle id project scope_text none = raise integrity_error
insert_cycle id project scope_text (some action) =
    modify λ h. record h { cycles = h.cycles ++ new_cycle id project scope_text action ∷ [] }

-- The UPDATE that closes, whose closing action must not be NULL.
unfoldable pub close_cycle : ℕ → Option ℕ → Tx (Unit {0})
close_cycle id none = raise integrity_error
close_cycle id (some action) = modify (
    set_cycle id
      (λ c. record c { state = CycleState.closed; closure_author_action_id = some action }))

-- The change of each operation on the row that was read, with its event result.
unfoldable pub cycle_change : Call → Cycle → CycleStep → Tx (List (String × Json))
cycle_change c y (mark_awaiting_review summary) = do
  require (λ _. reviewable y.state) (raised Code.concurrency_conflict)
  modify (set_cycle y.cycle_id (λ o. record o { state = CycleState.awaiting_review }))
  pure (("state", str "AWAITING_REVIEW") ∷ ("summary", num summary) ∷ [])
cycle_change c y (accept decision) = do
  require (λ _. is_awaiting y.state) (raised Code.concurrency_conflict)
  require (λ _. same_option c.request.exact_author_action_id (some decision))
      (raised Code.authorization_denied)
  modify (
      set_cycle y.cycle_id (λ o. record o {
        state = CycleState.accepted;
        acceptance_author_action_id = c.request.exact_author_action_id;
      }))
  pure (("state", str "ACCEPTED") ∷ ("decisionId", opt c.request.exact_author_action_id) ∷ [])
cycle_change c y (close decision) = do
  require (λ _. is_accepted y.state && same_option y.acceptance_author_action_id (some decision))
      (raised Code.concurrency_conflict)
  close_cycle y.cycle_id c.request.exact_author_action_id
  pure (("state", str "CLOSED") ∷ ("acceptanceDecisionId", num decision) ∷ [])

module _ (sha256_json : Json → ℕ) where
  abbrev cycle_root : ℕ → Json → ℕ
  cycle_root id detail = aggregate_root sha256_json "SemanticCycle" id detail

  abbrev optional_cycle : Hub → Option Cycle → Json
  optional_cycle h none = null
  optional_cycle h (some y) = cycle_state h y

  unfoldable pub finish_cycle :
      Call → Basis → ℕ → ℕ → ℕ → List ℕ → List (String × Json) → Tx Response
  finish_cycle c basis id before_root next created event_result = do
    updated ← row (λ h. cycle_of h id) (raised Code.internal_error)
    after_root ← reading (λ h. ok (cycle_root id (cycle_state h updated)))
    modify (set_cycle id (λ o. record o { aggregate_version = next; aggregate_root = after_root }))
    finalize_mutation sha256_json c basis (record {
      before_root = before_root;
      after_root = after_root;
      aggregate_version = next;
      created_ids = created;
      event_result = event_result;
      link = no_link;
    })

  -- What follows the gate, on the row that was read.
  unfoldable pub cycle_operation : Call → ℕ → ℕ → ℕ → Option Cycle → CycleOperation → Tx Response
  unfolding finish_cycle
  cycle_operation c id before_root version found (open_cycle project scope_text) = do
    require (λ _. not (is_some found)) (raised Code.concurrency_conflict)
    p ← row (λ h. project_of h project) (raised Code.input_invalid)
    require (λ _. is_active_project p.status) (raised Code.input_invalid)
    basis ← prepare_mutation_authority c (facts (p.project_id ∷ []) [] [] [])
    insert_cycle id p.project_id scope_text c.request.exact_author_action_id
    finish_cycle c basis id before_root 1 (id ∷ []) (("state", str "OPEN") ∷ [])
  cycle_operation c id before_root version found (step op) = do
    y ← row (λ _. found) (raised Code.input_invalid)
    basis ← prepare_mutation_authority c (facts (y.project_id ∷ []) [] [] [])
    event_result ← cycle_change c y op
    finish_cycle c basis id before_root (version + 1) [] event_result

  -- The handler of the four operations.
  unfoldable pub cycle_mutation : Call → ℕ → CycleOperation → Tx Response
  cycle_mutation c id op = do
    require_id c.request id
    found ← reading (λ h. ok (cycle_of h id))
    before_root ← reading (λ h. ok (cycle_root id (optional_cycle h found)))
    version ← aggregate_position "SemanticCycle" id before_root
    require_aggregate c.request "SemanticCycle" id version before_root
    cycle_operation c id before_root version found op
