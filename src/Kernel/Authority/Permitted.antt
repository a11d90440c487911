-- ===== src/Kernel/Authority/Permitted.antt =====
-- What an authority basis is, said of the rows of the hub and the request alone.
use codex_post_office.Base.{ℕ, ◌<◌, ◌≡◌, ◌≢◌, Option, none, some, List, [], ◌∷◌}
use codex_post_office.Hub.{Hub, Actor, ActorKind, AuthorAction, Grant, GrantStatus, Scope}
use codex_post_office.Kernel.Authority.Call.{Call}
use mathlib.Core.List.{Memᴰ}

-- The caller is a human author.
pub record IsAuthor (c : Call) (actors : List Actor) : Type 0 where
  pub actor : Actor
  pub is_row : Memᴰ actor actors
  pub is_caller : actor.actor_id ≡ c.capability.actor_id
  pub is_human : actor.actor_kind ≡ ActorKind.human
  pub is_author : actor.role ≡ "author"

-- No action has the identifier.
pub data IsUnused (id : ℕ) : List AuthorAction → Type 0 where
  nowhere : IsUnused id []
  elsewhere :
      (a : AuthorAction) (as' : List AuthorAction)
      → a.action_id ≢ id
      → IsUnused id as'
      → IsUnused id (a ∷ as')

-- The action that is retained is what the request asks for, in all its parts, and is not consumed.
pub record IsConfirmed (c : Call) (id : ℕ) (actions : List AuthorAction) : Type 0 where
  pub action : AuthorAction
  pub is_row : Memᴰ action actions
  pub is_named : action.action_id ≡ id
  pub same_actor : action.actor_id ≡ c.capability.actor_id
  pub same_operation : action.operation ≡ c.request.operation
  pub same_scope : action.scope_json ≡ c.request.scope_json
  pub same_request : action.confirmation_sha256 ≡ c.request_hash
  pub unconsumed : action.consumed_event_id ≡ none

pub data IsUnexpired (now : ℕ) : Option ℕ → Type 0 where
  never : IsUnexpired now none
  before : (t : ℕ) → now < t → IsUnexpired now (some t)

pub data IsUnspent : Option ℕ → Type 0 where
  unlimited : IsUnspent none
  left : (n : ℕ) → 0 < n → IsUnspent (some n)

-- A field of a scope that is empty, or shares a member with the facts of the request.
pub data Meets (declared facts : List ℕ) : Type 0 where
  unconstrained : declared ≡ [] → Meets declared facts
  shared : (v : ℕ) → Memᴰ v declared → Memᴰ v facts → Meets declared facts

-- Some field of the scope is not empty.
pub data IsConstrained (s : Scope) : Type 0 where
  projects : (v : ℕ) → Memᴰ v s.project_ids → IsConstrained s
  tasks : (v : ℕ) → Memᴰ v s.task_ids → IsConstrained s
  packages : (v : ℕ) → Memᴰ v s.package_ids → IsConstrained s
  mail_domains : (v : ℕ) → Memᴰ v s.scope_domains → IsConstrained s

pub record Covers (s facts : Scope) : Type 0 where
  pub by_projects : Meets s.project_ids facts.project_ids
  pub by_tasks : Meets s.task_ids facts.task_ids
  pub by_packages : Meets s.package_ids facts.package_ids
  pub by_domains : Meets s.scope_domains facts.scope_domains
  pub is_constrained : IsConstrained s

-- The grant is the caller's, for this operation and these facts, and still in force.
pub record IsGranted (c : Call) (facts : Scope) (id : ℕ) (grants : List Grant) : Type 0 where
  pub grant : Grant
  pub is_row : Memᴰ grant grants
  pub is_named : grant.grant_id ≡ id
  pub is_recipient : grant.recipient_actor_id ≡ c.capability.actor_id
  pub is_active : grant.status ≡ GrantStatus.active
  pub operation : Memᴰ c.request.operation grant.allowed_operations
  pub unexpired : IsUnexpired c.checked_at grant.expires_at
  pub unspent : IsUnspent grant.remaining_uses
  pub covers : Covers grant.scope facts

-- The request names one basis: an action that is an author's, and new or confirmed, or a grant.
pub data Permitted (c : Call) (facts : Scope) (h : Hub) : Type 0 where
  by_new_action :
      (id : ℕ)
      → c.request.exact_author_action_id ≡ some id
      → c.request.authority_grant_id ≡ none
      → IsAuthor c h.actors
      → IsUnused id h.actions
      → Permitted c facts h
  by_confirmed_action :
      (id : ℕ)
      → c.request.exact_author_action_id ≡ some id
      → c.request.authority_grant_id ≡ none
      → IsAuthor c h.actors
      → IsConfirmed c id h.actions
      → Permitted c facts h
  by_grant :
      (id : ℕ)
      → c.request.exact_author_action_id ≡ none
      → c.request.authority_grant_id ≡ some id
      → IsGranted c facts id h.grants
      → Permitted c facts h
