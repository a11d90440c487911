-- ===== src/Kernel/Authority/Permits.antt =====
-- The calls for which `_prepare_mutation_authority` succeeds.
use codex_post_office.Base.{
  ℕ, ◌≡◌, refl, true, ◌&&◌, Option, none, some, str_eq, eq_iff, ok, arith, Bool-cases, Option-cases,
  inl, inr,
}
use codex_post_office.Hub.{Hub, Actor, ActorKind, AuthorAction, Grant, Scope}
use codex_post_office.Kernel.Transaction.{reading, raise, ◌>>=◌}
use codex_post_office.Kernel.Authority.Call.{Call, actor_of}
use codex_post_office.Kernel.Authority.Scopes.{scope_allows}
use codex_post_office.Kernel.Authority.Basis.{
  Basis, is_author, unchanged, action_of, grant_of, grant_permits, prepare_grant, basis_by,
  prepare_mutation_authority,
}
use codex_post_office.Kernel.Authority.Authorised.{
  fresh_or_unchanged, is_usable_grant, is_constrained, is_constrained_grant, authorised_by,
  authorised, basis_by-refused,
}
use codex_post_office.Kernel.Authority.Permitted.{
  IsAuthor, IsConfirmed, Covers, IsGranted, Permitted,
}
use codex_post_office.Kernel.Authority.Conditions.{
  no_facts, find-row, find-IsUnused, names-Mem, scope_allows-Covers, Covers-self, IsUnexpired-by,
  IsUnspent-by, active-by, none-by,
}

author-row :
    (a : Actor)
    → is_author (some a) ≡ true
    → (a.actor_kind ≡ ActorKind.human) × (str_eq a.role "author" ≡ true)
author-row a e = ground (arith, e)

module _ (c : Call) (h : Hub) where
  granted :
      (facts : Scope) (id : ℕ) (g : Grant)
      → grant_of h id ≡ some g
      → is_usable_grant c (some g) ≡ true
      → Covers g.scope facts
      → IsGranted c facts id h.grants
  granted facts id g row usable covers =
      let (m, named) = find-row _ h.grants g row in
      record {
        grant = g;
        is_row = m;
        is_named = ground (arith, named);
        is_recipient = ground (arith, usable);
        is_active = active-by g.status (ground (arith, usable));
        operation = names-Mem c.request.operation g.allowed_operations (ground (arith, usable));
        unexpired = IsUnexpired-by c.checked_at g.expires_at (ground (arith, usable));
        unspent = IsUnspent-by g.remaining_uses (ground (arith, usable));
        covers = covers;
      }

  author : is_author (actor_of h c.capability.actor_id) ≡ true → IsAuthor c h.actors
  author e = elim (Option-cases (actor_of h c.capability.actor_id)) [
    | inl missing ↦ absurd (let failed = rw missing at e in ground arith)
    | inr (a, row) ↦
        let (m, named) = find-row _ h.actors a row in
        let held : is_author (some a) ≡ true = rw row at e in
        let (human, role) = author-row a held in
        record {
          actor = a;
          is_row = m;
          is_caller = ground (arith, named);
          is_human = human;
          is_author = (eq_iff a.role "author").0 role;
        }
  ]

  confirmed :
      (id : ℕ) (a : AuthorAction)
      → action_of h id ≡ some a
      → unchanged c a ≡ true
      → IsConfirmed c id h.actions
  confirmed id a row e =
      let (m, named) = find-row _ h.actions a row in
      record {
        action = a;
        is_row = m;
        is_named = ground (arith, named);
        same_actor = ground (arith, e);
        same_operation = (eq_iff a.operation c.request.operation).0 (ground (arith, e));
        same_scope = ground (arith, e);
        same_request = ground (arith, e);
        unconsumed = none-by a.consumed_event_id (ground (arith, e));
      }

  by_action_of :
      (facts : Scope) (id : ℕ)
      → c.request.exact_author_action_id ≡ some id
      → c.request.authority_grant_id ≡ none
      → (is_author (actor_of h c.capability.actor_id) && fresh_or_unchanged c (action_of h id))
        ≡ true
      → Permitted c facts h
  by_action_of facts id named no_grant e = elim (Option-cases (action_of h id)) [
    | inl unused ↦
        Permitted.by_new_action id named no_grant (author (ground (arith, e)))
          (find-IsUnused id h.actions unused)
    | inr (a, row) ↦
        let both : (is_author (actor_of h c.capability.actor_id) && unchanged c a) ≡ true =
          rw row at e in
        Permitted.by_confirmed_action id named no_grant (author (ground (arith, both)))
          (confirmed id a row (ground (arith, both)))
  ]

  -- A grant that passes the test, with facts that its scope covers.
  by_grant_of :
      (id : ℕ)
      → c.request.exact_author_action_id ≡ none
      → c.request.authority_grant_id ≡ some id
      → (is_usable_grant c (grant_of h id) && is_constrained_grant (grant_of h id)) ≡ true
      → (facts : Scope) × Permitted c facts h
  by_grant_of id no_action named e = elim (Option-cases (grant_of h id)) [
    | inl missing ↦ absurd (let failed = rw missing at e in ground arith)
    | inr (g, row) ↦
        let both : (is_usable_grant c (some g) && is_constrained g.scope) ≡ true = rw row at e in
        (
          g.scope,
          Permitted.by_grant id no_action named (
              granted g.scope id g row (ground (arith, both))
                (Covers-self g.scope (ground (arith, both)))),
        )
  ]

  authorised_by-Permitted :
      (action grant : Option ℕ)
      → c.request.exact_author_action_id ≡ action
      → c.request.authority_grant_id ≡ grant
      → authorised_by c action grant h ≡ true
      → (facts : Scope) × Permitted c facts h
  authorised_by-Permitted (some a) none p q e = (no_facts, by_action_of no_facts a p q e)
  authorised_by-Permitted none (some g) p q e = by_grant_of g p q e
  authorised_by-Permitted none none p q e = absurd (ground arith)
  authorised_by-Permitted (some a) (some g) p q e = absurd (ground arith)

  pub authorised-Permitted : authorised c h ≡ true → (facts : Scope) × Permitted c facts h
  unfolding authorised
  authorised-Permitted e = authorised_by-Permitted _ _ refl refl e

  granted_by :
      (facts : Scope) (id : ℕ) (b : Basis) (k : Hub)
      → prepare_grant c id facts h ≡ ok (b, k)
      → IsGranted c facts id h.grants
  unfolding prepare_grant ◌>>=◌ reading scope_allows
  granted_by facts id b k e = elim (Option-cases (grant_of h id)) [
    | inl missing ↦ absurd (let failed = rw missing at e in ground arith)
    | inr (g, row) ↦ elim (Bool-cases (grant_permits c facts g)) [
      | inl permits ↦
          granted facts id g row (ground (arith, permits))
            (scope_allows-Covers g.scope facts (ground (arith, permits)))
      | inr refused ↦
          absurd (let failed = rw row at e in let failed2 = rw refused at failed in ground arith)
    ]
  ]

  basis_by-Permitted :
      (facts : Scope) (action grant : Option ℕ) (b : Basis) (k : Hub)
      → c.request.exact_author_action_id ≡ action
      → c.request.authority_grant_id ≡ grant
      → basis_by c facts action grant h ≡ ok (b, k)
      → Permitted c facts h
  unfolding basis_by raise
  basis_by-Permitted facts (some a) none b k p q e =
      elim (Bool-cases (authorised_by c (some a) none h)) [
        | inl held ↦ by_action_of facts a p q held
        | inr denied ↦ absurd (
            let refused = basis_by-refused c h facts (some a) none denied in
            ground (arith, e, refused))
      ]
  basis_by-Permitted facts none (some g) b k p q e =
      Permitted.by_grant g p q (granted_by facts g b k e)
  basis_by-Permitted facts none none b k p q e = absurd (ground arith)
  basis_by-Permitted facts (some a) (some g) b k p q e = absurd (ground arith)

-- A mutation obtains an authority basis only where its call is permitted for the facts of its
-- request: it names one basis, which is either an action of a human author's that is new or, with the
-- same actor, operation, scope and request, retained and unconsumed, or a grant of the caller's that
-- is active, names the operation, is neither expired nor spent, and whose scope constrains something
-- and meets the facts in every field that it constrains.
pub prepare_mutation_authority-Permitted :
    (c : Call) (facts : Scope) (h g : Hub) (b : Basis)
    → prepare_mutation_authority c facts h ≡ ok (b, g)
    → Permitted c facts h
unfolding prepare_mutation_authority
prepare_mutation_authority-Permitted c facts h g b e =
    basis_by-Permitted c h facts _ _ b g refl refl e
