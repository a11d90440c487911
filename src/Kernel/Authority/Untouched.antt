-- ===== src/Kernel/Authority/Untouched.antt =====
-- The parts of the hub that the authority basis and the end of a mutation leave alone: those that do
-- not depend on the actions, the grants and the event log.
use codex_post_office.Base.{ℕ, ◌≡◌, Option, none, some, List, Json, Bool-cases, inl, inr, is_some}
use codex_post_office.Base.{◌∙◌, ap}
use codex_post_office.Hub.{Hub, Scope, AuthorAction, Grant, Event}
use codex_post_office.Kernel.Events.Append.{Entry, append_hub_event}
use codex_post_office.Kernel.Grows.{append_hub_event-ok}
use codex_post_office.Kernel.Steps.{
  Keeps, Keeps-pure, Keeps-raise, Keeps-reading, Keeps-modify, Keeps-bind,
}
use codex_post_office.Kernel.Authority.Call.{Call}
use codex_post_office.Kernel.Authority.Basis.{
  Basis, exact_author_action, authority_grant, retain_action, prepare_action, prepare_grant,
  basis_by, prepare_mutation_authority,
}
use codex_post_office.Kernel.Authority.Finalize.{
  Finish, consume_uses, consume_retained, consume_grant_authority, consume_action,
  finalize_mutation,
}

-- The part does not depend on the actions, the grants and the event log.
pub record Untouched {T : Type 0} (part : Hub → T) : Type 0 where
  pub by_actions : (h : Hub) (as' : List AuthorAction) → part (record h { actions = as' }) ≡ part h
  pub by_grants : (h : Hub) (gs : List Grant) → part (record h { grants = gs }) ≡ part h
  pub by_events : (h : Hub) (es : List Event) → part (record h { events = es }) ≡ part h

module _ {T : Type 0} (part : Hub → T) (u : Untouched part) where
  Keeps-retain : (c : Call) (id : ℕ) (o : Option AuthorAction) → Keeps part (retain_action c id o)
  unfolding retain_action
  Keeps-retain c id none = Keeps-modify _ _ (λ h. u.by_actions h _)
  Keeps-retain c id (some a) = Keeps-reading _ _

  Keeps-basis_by :
      (c : Call) (facts : Scope) (action grant : Option ℕ)
      → Keeps part (basis_by c facts action grant)
  unfolding basis_by prepare_action prepare_grant
  Keeps-basis_by c facts none none = Keeps-raise _ _
  Keeps-basis_by c facts none (some g) =
      Keeps-bind _ _ _ (Keeps-reading _ _)
        λ _. Keeps-bind _ _ _ (Keeps-reading _ _) λ _. Keeps-pure _ _
  Keeps-basis_by c facts (some a) none = Keeps-bind _ _ _ (Keeps-reading _ _) λ _.
      Keeps-bind _ _ _ (Keeps-reading _ _)
        λ r. Keeps-bind _ _ _ (Keeps-retain c a r) λ _. Keeps-pure _ _
  Keeps-basis_by c facts (some a) (some g) = Keeps-raise _ _

  pub Keeps-prepare : (c : Call) (facts : Scope) → Keeps part (prepare_mutation_authority c facts)
  unfolding prepare_mutation_authority
  Keeps-prepare c facts = Keeps-basis_by c facts _ _

  module _ (sha256_json : Json → ℕ) where
    pub Keeps-append_event : (x : Entry) → Keeps part (append_hub_event sha256_json x)
    Keeps-append_event x = record {
      at = λ h a g e.
          let (p, q) = append_hub_event-ok sha256_json x h e in ap part q ∙ u.by_events h g.events;
    }

    Keeps-consume_retained :
        (c : Call) (id : ℕ) (g : Grant) (uses : Option ℕ)
        → Keeps part (consume_retained sha256_json c id g uses)
    unfolding consume_retained consume_uses
    Keeps-consume_retained c id g none = Keeps-raise _ _
    Keeps-consume_retained c id g (some n) = Keeps-bind _ _ _ (Keeps-reading _ _) λ _.
        Keeps-bind _ _ _ (Keeps-reading _ _) λ _.
          Keeps-bind _ _ _ (Keeps-modify _ _ (λ h. u.by_grants h _)) λ _.
            Keeps-bind _ _ _ (Keeps-reading _ _)
              λ _. Keeps-bind _ _ _ (Keeps-append_event _) λ _. Keeps-pure _ _

    Keeps-consume_grant :
        (c : Call) (basis : Basis) → Keeps part (consume_grant_authority sha256_json c basis)
    unfolding consume_grant_authority
    Keeps-consume_grant c (exact_author_action a) = Keeps-pure _ _
    Keeps-consume_grant c (authority_grant id g) = elim (Bool-cases (is_some g.remaining_uses)) [
      | inl limited ↦
          rw limited (
            Keeps-bind _ _ _ (Keeps-reading _ _)
              λ r. Keeps-consume_retained c id r r.remaining_uses)
      | inr free ↦ rw free (Keeps-pure _ _)
    ]

    Keeps-consume_action : (basis : Basis) (event : ℕ) → Keeps part (consume_action basis event)
    unfolding consume_action
    Keeps-consume_action (authority_grant a o) event = Keeps-pure _ _
    Keeps-consume_action (exact_author_action a) event =
        Keeps-bind _ _ _ (Keeps-reading _ _) λ _. Keeps-modify _ _ (λ h. u.by_actions h _)

    pub Keeps-finalize :
        (c : Call) (basis : Basis) (f : Finish)
        → ((e : ℕ) (h : Hub) → part (f.link e h) ≡ part h)
        → Keeps part (finalize_mutation sha256_json c basis f)
    unfolding finalize_mutation
    Keeps-finalize c basis f link = Keeps-bind _ _ _ (Keeps-consume_grant c basis) λ _.
        Keeps-bind _ _ _ (Keeps-append_event _) λ event.
          Keeps-bind _ _ _ (Keeps-consume_action basis event)
            λ _. Keeps-bind _ _ _ (Keeps-modify _ _ (link event)) λ _. Keeps-pure _ _
