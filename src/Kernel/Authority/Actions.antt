-- ===== src/Kernel/Authority/Actions.antt =====
-- An author's action, once it is spent, is spent for good.
use codex_post_office.Base.{
  ℕ, ◌≡◌, refl, ap, ◌∙◌, Bool, true, false, Option, none, some, List, [], ◌∷◌, Json, find, any,
  update, ◌==◌, is_some, ok, arith, is_ok, Bool-cases, inl, inr, check, raised, Code, sym,
}
use mathlib.Core.Path.{subst}
use codex_post_office.Hub.{Hub, AuthorAction, Scope}
use codex_post_office.Kernel.Transaction.{Tx, ◌>>=◌, reading, modify, raise}
use codex_post_office.Kernel.Authority.Call.{Call}
use codex_post_office.Kernel.Authority.Basis.{
  Basis, exact_author_action, retain_action, unchanged, action_of, prepare_action, basis_by,
  prepare_mutation_authority,
}
use codex_post_office.Kernel.Authority.Finalize.{
  Finish, is_pending_action, consume_action, finalize_mutation,
}
use codex_post_office.Kernel.Grows.{>>=-ok, reading-ok}
use codex_post_office.Kernel.Steps.{
  Keeps-pure, Keeps-reading, Keeps-modify, Keeps-bind, Gives, Gives-pure, Gives-raise, Gives-bind,
  Ends, Ends-bind, Ends-then, after-err, Blocked, Blocked-later,
}

abbrev pub actions_of : Hub → List AuthorAction
actions_of h = h.actions

abbrev pub has_id : ℕ → AuthorAction → Bool
has_id id a = a.action_id == id

-- The action is retained, and an event has consumed it.
abbrev pub IsConsumed : ℕ → List AuthorAction → Type 0
IsConsumed id as' =
    (a : AuthorAction) × (find (has_id id) as' ≡ some a) × (is_some a.consumed_event_id ≡ true)

abbrev consumed_by : ℕ → AuthorAction → AuthorAction
consumed_by event a = record a { consumed_event_id = some event }

IsConsumed-head :
    (id event : ℕ) (a : AuthorAction) (as' : List AuthorAction)
    → a.action_id == id ≡ true
    → IsConsumed id (update (is_pending_action id) (consumed_by event) (a ∷ as'))
IsConsumed-head id event a as' mine = elim (Bool-cases (is_some a.consumed_event_id)) [
  | inl old ↦ (a, ground arith, old)
  | inr new ↦ (consumed_by event a, ground arith, refl)
]

update-IsConsumed :
    (id event : ℕ) (as' : List AuthorAction)
    → any (is_pending_action id) as' ≡ true
    → IsConsumed id (update (is_pending_action id) (consumed_by event) as')
update-IsConsumed id event [] h = absurd (ground arith)
update-IsConsumed id event (a ∷ as') h = elim (Bool-cases (a.action_id == id)) [
  | inl mine ↦ IsConsumed-head id event a as' mine
  | inr other ↦
      let (x, found, spent) = update-IsConsumed id event as' (ground arith) in
      (x, ground arith, spent)
]

check-true :
    (b : Bool) (x : Unit {0}) → check b (raised Code.authorization_denied) ≡ ok x → b ≡ true
check-true true x e = refl
check-true false x e = absurd (ground arith)

consumed_rows :
    (id event : ℕ) (h g : Hub) {u : Unit {0}}
    → modify
        (λ o. record o { actions = update (is_pending_action id) (consumed_by event) o.actions })
        h
      ≡ ok (u, g)
    → g.actions ≡ update (is_pending_action id) (consumed_by event) h.actions
unfolding modify
consumed_rows id event h g e = ground arith

consume_action-Ends :
    (id event : ℕ) → Ends actions_of (IsConsumed id) (consume_action (exact_author_action id) event)
unfolding consume_action modify
consume_action-Ends id event = record {
  at = λ h u k e.
      let (x, g, p, q) = >>=-ok _ _ h e in
      let (tested, same) = reading-ok _ h p in
      let done : k.actions ≡ update (is_pending_action id) (consumed_by event) g.actions =
        consumed_rows id event g k q in
      subst (IsConsumed id)
        (sym (done ∙ ap (λ o. update (is_pending_action id) (consumed_by event) o.actions) same))
        (update-IsConsumed id event h.actions (check-true _ _ tested));
}

-- The request's basis is the action that it names.
pub prepare_mutation_authority-Gives :
    (c : Call) (facts : Scope) (id : ℕ)
    → c.request.exact_author_action_id ≡ some id
    → Gives (λ b. b ≡ exact_author_action id) (prepare_mutation_authority c facts)
unfolding prepare_mutation_authority basis_by prepare_action
prepare_mutation_authority-Gives c facts id named =
    subst
      (λ o.
        Gives (λ b. b ≡ exact_author_action id) (basis_by c facts o c.request.authority_grant_id))
      (sym named) (by_grant c.request.authority_grant_id)
  where
    by_action : Gives (λ b. b ≡ exact_author_action id) (prepare_action c id)
    by_action =
        Gives-bind _ _ _ λ _. Gives-bind _ _ _ λ r. Gives-bind _ _ _ λ _. Gives-pure _ _ refl

    by_grant :
        (grant : Option ℕ)
        → Gives (λ b. b ≡ exact_author_action id) (basis_by c facts (some id) grant)
    by_grant none = by_action
    by_grant (some g) = Gives-raise _ _

retain_action-refused :
    (c : Call) (id : ℕ) (a : AuthorAction) (h : Hub)
    → is_some a.consumed_event_id ≡ true
    → is_ok (retain_action c id (some a) h) ≡ false
unfolding retain_action reading
retain_action-refused c id a h spent =
    let refused : unchanged c a ≡ false = ground (arith, spent) in rw refused

module _ (c : Call) (id : ℕ) where
  retaining-Blocked :
      (f : Unit {0} → Tx Basis)
      → Blocked actions_of
          (IsConsumed id)
          (reading (λ h. ok (action_of h id)) >>= λ r. retain_action c id r >>= f)
  unfolding ◌>>=◌
  retaining-Blocked f = record {
    at = λ h (a, found, spent). rw found (after-err _ f (retain_action-refused c id a h spent));
  }

  prepare_action-Blocked : Blocked actions_of (IsConsumed id) (prepare_action c id)
  unfolding prepare_action
  prepare_action-Blocked = Blocked-later _ _ _ _ (Keeps-reading _ _) λ _. retaining-Blocked _

  -- A consumed action authorises nothing.
  pub prepare_mutation_authority-Blocked :
      (facts : Scope)
      → c.request.exact_author_action_id ≡ some id
      → Blocked actions_of (IsConsumed id) (prepare_mutation_authority c facts)
  unfolding prepare_mutation_authority basis_by raise
  prepare_mutation_authority-Blocked facts named =
      subst
        (λ o. Blocked actions_of (IsConsumed id) (basis_by c facts o c.request.authority_grant_id))
        (sym named) (by_grant c.request.authority_grant_id)
    where
      by_grant :
          (grant : Option ℕ) → Blocked actions_of (IsConsumed id) (basis_by c facts (some id) grant)
      by_grant none = prepare_action-Blocked
      by_grant (some g) = record { at = λ h p. refl }

module _ (sha256_json : Json → ℕ) where
  pub finalize_mutation-Ends :
      (c : Call) (basis : Basis) (f : Finish) (id : ℕ)
      → basis ≡ exact_author_action id
      → ((e : ℕ) (h : Hub) → (f.link e h).actions ≡ h.actions)
      → Ends actions_of (IsConsumed id) (finalize_mutation sha256_json c basis f)
  unfolding finalize_mutation
  finalize_mutation-Ends c basis f id same link = Ends-bind _ _ _ _ λ _. Ends-bind _ _ _ _ λ event.
      Ends-then _ _ _ _ (rw same (consume_action-Ends id event))
        λ _. Keeps-bind _ _ _ (Keeps-modify _ _ (link event)) λ _. Keeps-pure _ _
