-- ===== src/Kernel/Mutations/Grants.antt =====
-- authority.grant and authority.revoke.
use codex_post_office.Base.{
  ℕ, ◌+◌, String, Bool, true, false, not, ◌&&◌, Option, none, some, List, [], ◌∷◌, ◌++◌, Json, num,
  str, all, update, ◌==◌, raised, Code, null, is_some, same_option,
}
use codex_post_office.Hub.{
  Grant, GrantStatus, Classification, Scope, Actor, one_shot, standing, is_active,
}
use codex_post_office.Kernel.Transaction.{Tx, require, reading, row, modify, ◌>>=◌, ◌>>◌}
use codex_post_office.Kernel.Documents.{grant_state}
use codex_post_office.Kernel.Events.Query.{aggregate_root, aggregate_position}
use codex_post_office.Kernel.Authority.Call.{Call, names, is_past, actor_of}
use codex_post_office.Kernel.Authority.Scopes.{scope_projects}
use codex_post_office.Kernel.Authority.Basis.{prepare_mutation_authority, grant_of}
use codex_post_office.Kernel.Authority.Finalize.{Response, finalize_mutation, is_grant}
use codex_post_office.Kernel.Mutations.Common.{holds, require_aggregate}

-- The parameter `grant`.
pub record GrantRequest : Type 0 where
  pub grantor_id : ℕ
  pub recipient_id : ℕ
  pub source_decision_id : ℕ
  pub allowed_operations : List String
  pub scope : Scope
  pub classification : Classification
  pub maximum_uses : Option ℕ
  pub rationale : ℕ
  pub expires_at : Option ℕ

abbrev distinct_names : List String → Bool
distinct_names [] = true
distinct_names (x ∷ xs) = not (names x xs) && distinct_names xs

-- a ONE_SHOT grant has a limit, and a STANDING grant has none
abbrev pub limit_agrees : Classification → Option ℕ → Bool
limit_agrees one_shot m = is_some m
limit_agrees standing m = not (is_some m)

abbrev no_facts : Scope
no_facts = record { project_ids = []; task_ids = []; package_ids = []; scope_domains = [] }

-- `sorted(allowed_operations)`: the order of texts is the database's, passed in
new_grant : (List String → List String) → ℕ → GrantRequest → Grant
new_grant sort_names id g = record {
  grant_id = id;
  grantor_actor_id = g.grantor_id;
  recipient_actor_id = g.recipient_id;
  allowed_operations = sort_names g.allowed_operations;
  scope = g.scope;
  classification = g.classification;
  maximum_uses = g.maximum_uses;
  remaining_uses = g.maximum_uses;
  status = GrantStatus.active;
  rationale = g.rationale;
  source_author_action_id = some g.source_decision_id;
  expires_at = g.expires_at;
  created_event_id = none;
  revoked_event_id = none;
}

-- The tests of authority.grant on its parameters, in the order of the code.
abbrev pub grant_admissible : List String → Call → GrantRequest → Tx (Unit {0})
grant_admissible implemented c g = do
  require
      (λ _.
        g.grantor_id == c.request.actor_id
        && same_option c.request.exact_author_action_id (some g.source_decision_id))
      (raised Code.authorization_denied)
  require (λ h. holds (λ (a : Actor). is_active a.status) (actor_of h g.recipient_id))
      (raised Code.input_invalid)
  require (λ _. distinct_names g.allowed_operations) (raised Code.input_invalid)
  require (λ _. all (λ o. names o implemented) g.allowed_operations)
      (raised Code.authorization_denied)
  reading (λ h. scope_projects h g.scope)
  require
      (λ _. limit_agrees g.classification g.maximum_uses && not (is_past g.expires_at c.checked_at))
      (raised Code.input_invalid)

module _ (sha256_json : Json → ℕ) where
  abbrev grant_root : ℕ → Json → ℕ
  grant_root id detail = aggregate_root sha256_json "AuthorityGrant" id detail

  -- authority.grant
  unfoldable pub grant_mutation :
      List String → (List String → List String) → Call → GrantRequest → Tx Response
  unfolding new_grant
  grant_mutation implemented sort_names c g = do
    let id = c.request.aggregate_id
    require (λ h. not (is_some (grant_of h id))) (raised Code.concurrency_conflict)
    require_aggregate c.request "AuthorityGrant" id 0 (grant_root id null)
    grant_admissible implemented c g
    basis ← prepare_mutation_authority c no_facts
    modify (λ h. record h { grants = h.grants ++ new_grant sort_names id g ∷ [] })
    created ← row (λ h. grant_of h id) (raised Code.internal_error)
    finalize_mutation sha256_json c basis (record {
      before_root = grant_root id null;
      after_root = grant_root id (grant_state created);
      aggregate_version = 1;
      created_ids = id ∷ [];
      event_result = ("state", str "ACTIVE") ∷ [];
      link = λ event h. record h {
        grants = update (is_grant id) (λ o. record o { created_event_id = some event }) h.grants;
      };
    })

  abbrev is_revoked : GrantStatus → Bool
  is_revoked GrantStatus.revoked = true
  is_revoked _ = false

  -- authority.revoke
  unfoldable pub revoke_mutation : Call → ℕ → ℕ → Tx Response
  revoke_mutation c id reason = do
    g ← row (λ h. grant_of h id) (raised Code.input_invalid)
    let before_root = grant_root id (grant_state g)
    version ← aggregate_position "AuthorityGrant" id before_root
    require_aggregate c.request "AuthorityGrant" id version before_root
    require (λ _. not (is_revoked g.status)) (raised Code.concurrency_conflict)
    basis ← prepare_mutation_authority c no_facts
    modify λ h. record h {
      grants = update (is_grant id) (λ o. record o { status = GrantStatus.revoked }) h.grants;
    }
    updated ← row (λ h. grant_of h id) (raised Code.internal_error)
    finalize_mutation sha256_json c basis (record {
      before_root = before_root;
      after_root = grant_root id (grant_state updated);
      aggregate_version = version + 1;
      created_ids = [];
      event_result = ("state", str "REVOKED") ∷ ("reason", num reason) ∷ [];
      link = λ event h. record h {
        grants = update (is_grant id) (λ o. record o { revoked_event_id = some event }) h.grants;
      };
    })
