-- ===== src/Kernel/Authority/Basis.antt =====
-- `_prepare_mutation_authority`: the authority basis of a mutation.
use codex_post_office.Base.{
  ℕ, Bool, false, not, ◌&&◌, Option, none, some, [], ◌∷◌, ◌++◌, ok, raised, Code, find, leb, ◌==◌,
  str_eq, is_some,
}
use codex_post_office.Hub.{Hub, Actor, ActorKind, AuthorAction, Grant, Scope, is_active_grant}
use codex_post_office.Kernel.Transaction.{
  Tx, pure, raise, reading, row, require, modify, ◌>>=◌, ◌>>◌,
}
use codex_post_office.Kernel.Authority.Call.{Call, names, is_past, actor_of}
use codex_post_office.Kernel.Authority.Scopes.{scope_allows}

-- The returned dictionary: its kind with the identifier, and the grant's row.
pub data Basis : Type 0 where
  exact_author_action : ℕ → Basis
  authority_grant : ℕ → Grant → Basis

abbrev pub is_author : Option Actor → Bool
is_author none = false
is_author (some a) = elim a.actor_kind [ ActorKind.human ↦ str_eq a.role "author" | _ ↦ false ]

abbrev pub action_of : Hub → ℕ → Option AuthorAction
action_of h id = find (λ (a : AuthorAction). a.action_id == id) h.actions

abbrev pub grant_of : Hub → ℕ → Option Grant
grant_of h id = find (λ (g : Grant). g.grant_id == id) h.grants

-- the retained action is the requested one, and is not consumed
abbrev pub unchanged : Call → AuthorAction → Bool
unchanged c a =
    a.actor_id == c.capability.actor_id
    && str_eq a.operation c.request.operation
    && a.scope_json == c.request.scope_json
    && a.confirmation_sha256 == c.request_hash
    && not (is_some a.consumed_event_id)

abbrev minted : Call → ℕ → AuthorAction
minted c id = record {
  action_id = id;
  actor_id = c.capability.actor_id;
  operation = c.request.operation;
  scope_json = c.request.scope_json;
  confirmation_sha256 = c.request_hash;
  consumed_event_id = none;
}

unfoldable pub retain_action : Call → ℕ → Option AuthorAction → Tx (Unit {0})
retain_action c id (some a) = require (λ _. unchanged c a) (raised Code.authorization_denied)
retain_action c id none = modify (λ h. record h { actions = h.actions ++ minted c id ∷ [] })

-- The action that a human author names: minted at its first use, refused when changed or consumed.
unfoldable pub prepare_action : Call → ℕ → Tx Basis
unfolding retain_action
prepare_action c id = do
  require (λ h. is_author (actor_of h c.capability.actor_id)) (raised Code.authorization_denied)
  retained ← reading (λ h. ok (action_of h id))
  retain_action c id retained
  pure (exact_author_action id)

abbrev pub exhausted_uses : Option ℕ → Bool
exhausted_uses none = false
exhausted_uses (some n) = leb n 0

abbrev pub grant_permits : Call → Scope → Grant → Bool
grant_permits c facts g =
    g.recipient_actor_id == c.capability.actor_id
    && is_active_grant g.status
    && names c.request.operation g.allowed_operations
    && not (is_past g.expires_at c.checked_at)
    && not (exhausted_uses g.remaining_uses)
    && scope_allows g.scope facts

-- The grant that the request names: the caller's, active, for this operation, neither expired nor
-- exhausted, and with a scope that covers the facts of the request.
unfoldable pub prepare_grant : Call → ℕ → Scope → Tx Basis
prepare_grant c id facts = do
  g ← row (λ h. grant_of h id) (raised Code.authorization_denied)
  require (λ _. grant_permits c facts g) (raised Code.authorization_denied)
  pure (authority_grant id g)

unfoldable pub basis_by : Call → Scope → Option ℕ → Option ℕ → Tx Basis
basis_by c facts (some action) none = prepare_action c action
basis_by c facts none (some grant) = prepare_grant c grant facts
basis_by c facts none none = raise (raised Code.authorization_denied)
basis_by c facts (some _) (some _) = raise (raised Code.authorization_denied)

-- `_prepare_mutation_authority`: exactly one authority basis.
unfoldable pub prepare_mutation_authority : Call → Scope → Tx Basis
unfolding basis_by
prepare_mutation_authority c facts =
    basis_by c facts c.request.exact_author_action_id c.request.authority_grant_id
