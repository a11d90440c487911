-- ===== src/Kernel/Authority/Authorised.antt =====
-- A test for authorised calls, on the hub and the request alone, and that
-- `_prepare_mutation_authority` refuses every call that does not pass it.
use codex_post_office.Base.{
  ℕ, ◌≡◌, refl, Bool, true, false, not, ◌&&◌, ◌==◌, Option, none, some, is_ok, is_some, arith,
}
use codex_post_office.Hub.{Hub, Scope, AuthorAction, Grant, is_active_grant}
use codex_post_office.Kernel.Transaction.{reading, raise, ◌>>=◌}
use codex_post_office.Kernel.Steps.{Blocked}
use codex_post_office.Kernel.Authority.Call.{Call, names, is_past, actor_of}
use codex_post_office.Kernel.Authority.Scopes.{is_empty, scope_allows}
use codex_post_office.Kernel.Authority.Basis.{
  is_author, unchanged, action_of, grant_of, exhausted_uses, grant_permits, retain_action,
  prepare_action, prepare_grant, basis_by, prepare_mutation_authority,
}
use codex_post_office.Kernel.Authority.Actions.{actions_of, IsConsumed}

-- the action is the caller's first use of it, or was retained unchanged and is not consumed
abbrev pub fresh_or_unchanged : Call → Option AuthorAction → Bool
fresh_or_unchanged c none = true
fresh_or_unchanged c (some a) = unchanged c a

-- the grant exists, is the caller's, is active, names the operation, and is neither expired nor
-- exhausted
abbrev pub is_usable_grant : Call → Option Grant → Bool
is_usable_grant c none = false
is_usable_grant c (some g) =
    g.recipient_actor_id == c.capability.actor_id
    && is_active_grant g.status
    && names c.request.operation g.allowed_operations
    && not (is_past g.expires_at c.checked_at)
    && not (exhausted_uses g.remaining_uses)

-- The scope constrains something.
abbrev pub is_constrained : Scope → Bool
is_constrained s = not (
    is_empty s.project_ids
    && is_empty s.task_ids
    && is_empty s.package_ids
    && is_empty s.scope_domains)

abbrev pub is_constrained_grant : Option Grant → Bool
is_constrained_grant none = false
is_constrained_grant (some g) = is_constrained g.scope

-- Exactly one basis is named: an action of an author's, or a usable grant with a scope.
abbrev pub authorised_by : Call → Option ℕ → Option ℕ → Hub → Bool
authorised_by c (some a) none h =
    is_author (actor_of h c.capability.actor_id) && fresh_or_unchanged c (action_of h a)
authorised_by c none (some g) h =
    is_usable_grant c (grant_of h g) && is_constrained_grant (grant_of h g)
authorised_by c none none h = false
authorised_by c (some _) (some _) h = false

unfoldable pub authorised : Call → Hub → Bool
authorised c h = authorised_by c c.request.exact_author_action_id c.request.authority_grant_id h

abbrev pub whole : Hub → Hub
whole h = h

abbrev pub Unauthorised : Call → Hub → Type 0
Unauthorised c h = authorised c h ≡ false

module _ (c : Call) (h : Hub) where
  grant_permits-usable :
      (facts : Scope) (g : Grant)
      → (is_usable_grant c (some g) && is_constrained g.scope) ≡ false
      → grant_permits c facts g ≡ false
  unfolding scope_allows
  grant_permits-usable facts g refused = ground (arith, refused)

  prepare_grant-refused :
      (facts : Scope) (id : ℕ)
      → (is_usable_grant c (grant_of h id) && is_constrained_grant (grant_of h id)) ≡ false
      → is_ok (prepare_grant c id facts h) ≡ false
  unfolding prepare_grant ◌>>=◌ reading
  prepare_grant-refused facts id refused = go (grant_of h id) refl refused
    where
      go :
          (o : Option Grant)
          → grant_of h id ≡ o
          → (is_usable_grant c o && is_constrained_grant o) ≡ false
          → is_ok (prepare_grant c id facts h) ≡ false
      go none e r = rw e refl
      go (some g) e r = rw e (rw (grant_permits-usable facts g r) refl)

  prepare_action-refused :
      (id : ℕ) → authorised_by c (some id) none h ≡ false → is_ok (prepare_action c id h) ≡ false
  unfolding prepare_action ◌>>=◌ reading retain_action
  prepare_action-refused id refused =
      go (is_author (actor_of h c.capability.actor_id)) refl (action_of h id) refl refused
    where
      go :
          (b : Bool)
          → is_author (actor_of h c.capability.actor_id) ≡ b
          → (o : Option AuthorAction) → action_of h id ≡ o
          → (b && fresh_or_unchanged c o) ≡ false
          → is_ok (prepare_action c id h) ≡ false
      go false e o f r = rw e refl
      go true e none f r = absurd (ground arith)
      go true e (some a) f r = rw e (rw f (rw r refl))

  pub basis_by-refused :
      (facts : Scope) (action grant : Option ℕ)
      → authorised_by c action grant h ≡ false
      → is_ok (basis_by c facts action grant h) ≡ false
  unfolding basis_by raise
  basis_by-refused facts (some a) none refused = prepare_action-refused a refused
  basis_by-refused facts none (some g) refused = prepare_grant-refused facts g refused
  basis_by-refused facts none none refused = refl
  basis_by-refused facts (some a) (some g) refused = refl

-- An unauthorised call has no basis, whatever the facts of the request.
pub prepare_mutation_authority-Unauthorised :
    (c : Call) (facts : Scope) → Blocked whole (Unauthorised c) (prepare_mutation_authority c facts)
unfolding prepare_mutation_authority authorised
prepare_mutation_authority-Unauthorised c facts = record {
  at = λ h refused. basis_by-refused c h facts _ _ refused;
}

unchanged-consumed :
    (c : Call) (a : AuthorAction) → is_some a.consumed_event_id ≡ true → unchanged c a ≡ false
unchanged-consumed c a spent = ground (arith, spent)

-- A call that names a consumed action is unauthorised.
pub IsConsumed-Unauthorised :
    (c : Call) (id : ℕ) (h : Hub)
    → c.request.exact_author_action_id ≡ some id
    → IsConsumed id (actions_of h)
    → Unauthorised c h
unfolding authorised
IsConsumed-Unauthorised c id h named (a, found, spent) =
    rw named (by_grant c.request.authority_grant_id)
  where
    by_grant : (grant : Option ℕ) → authorised_by c (some id) grant h ≡ false
    by_grant none = rw found (rw (unchanged-consumed c a spent) (ground arith))
    by_grant (some g) = refl
