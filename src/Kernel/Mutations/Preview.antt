-- ===== src/Kernel/Mutations/Preview.antt =====
-- The actions that hub.reconcile.preview plans can be applied when all open observations are matches.
use codex_post_office.Base.{
  ℕ, ◌≡◌, refl, ap, ◌∙◌, Bool, true, false, not, ◌&&◌, ◌||◌, List, [], ◌∷◌, map, select, any, all,
  all_distinct, contains, length, leb, ◌==◌, insert_by, order_by, is_ok, Bool-cases, inl, inr,
  arith,
}
use codex_post_office.Hub.{Hub, Observation, PlannedAction}
use codex_post_office.Kernel.Mutations.Reconciliation.{
  is_pending, is_match, is_resolvable, open_observations, planned_action, resolve_observations,
}
use codex_post_office.Kernel.Mutations.Resolution.{
  one_match, concerns, resolves_all, resolve_observations-resolves_all,
}

abbrev pub id_of : Observation → ℕ
id_of o = o.observation_id

abbrev is_open : Observation → Bool
is_open o = is_pending o.state

abbrev opens : List Observation → List PlannedAction
opens os = map planned_action (select is_open os)

-- an observation that is open is a match
abbrev pub no_discrepancy : Observation → Bool
no_discrepancy o = not (is_pending o.state) || is_match o.verdict

-- The order of the actions does not matter.
swap :
    (x y p q a b r : Bool)
    → p ≡ q
    → (x && not (p || a) && (y && not b && r)) ≡ (y && not (q || b) && (x && not a && r))
swap x y p q a b r same = ground (arith, same)

same_sym : (a b : ℕ) → (a == b) ≡ (b == a)
same_sym a b = ground arith

insert-concerns :
    (id : ℕ) (o : Observation) (os : List Observation)
    → any (concerns id) (map planned_action (insert_by id_of o os))
      ≡ any (concerns id) (map planned_action (o ∷ os))
insert-concerns id o [] = refl
insert-concerns id o (p ∷ os) = elim (Bool-cases (leb (id_of o) (id_of p))) [
  | inl first ↦ rw first refl
  | inr later ↦ rw later (ground (arith, insert-concerns id o os))
]

order-concerns :
    (id : ℕ) (os : List Observation)
    → any (concerns id) (map planned_action (order_by id_of os))
      ≡ any (concerns id) (map planned_action os)
order-concerns id [] = refl
order-concerns id (o ∷ os) =
    insert-concerns id o (order_by id_of os)
    ∙ ap (λ b. (o.observation_id == id) || b) (order-concerns id os)

insert-resolves :
    (o : Observation) (os all_os : List Observation)
    → resolves_all (map planned_action (insert_by id_of o os)) all_os
      ≡ resolves_all (map planned_action (o ∷ os)) all_os
unfolding resolves_all
insert-resolves o [] all_os = refl
insert-resolves o (p ∷ os) all_os = elim (Bool-cases (leb (id_of o) (id_of p))) [
  | inl first ↦ rw first refl
  | inr later ↦ rw later (
      rw (insert-concerns (id_of p) o os) (
        rw (insert-resolves o os all_os) (
          swap (one_match (id_of p) all_os) (one_match (id_of o) all_os) (id_of o == id_of p)
            (id_of p == id_of o) (any (concerns (id_of p)) (map planned_action os))
            (any (concerns (id_of o)) (map planned_action os))
            (resolves_all (map planned_action os) all_os) (same_sym (id_of o) (id_of p)))))
]

order-resolves :
    (os all_os : List Observation)
    → resolves_all (map planned_action (order_by id_of os)) all_os
      ≡ resolves_all (map planned_action os) all_os
unfolding resolves_all
order-resolves [] all_os = refl
order-resolves (o ∷ os) all_os =
    insert-resolves o (order_by id_of os) all_os
    ∙ rw (order-concerns o.observation_id os) (rw (order-resolves os all_os) refl)

-- An observation of another identifier does not matter.
resolves-more :
    (o : Observation) (as' : List PlannedAction) (os : List Observation)
    → any (concerns o.observation_id) as' ≡ false
    → resolves_all as' (o ∷ os) ≡ resolves_all as' os
unfolding resolves_all
resolves-more o [] os apart = refl
resolves-more o (a ∷ as') os apart =
    let unlike : is_resolvable a.observation_id o ≡ false = ground (arith, apart) in
    let rest : any (concerns o.observation_id) as' ≡ false = ground (arith, apart) in
    rw unlike (rw (resolves-more o as' os rest) refl)

absent-resolvable :
    (id : ℕ) (os : List Observation)
    → contains id (map id_of os) ≡ false
    → length (select (is_resolvable id) os) ≡ 0
absent-resolvable id [] absent = refl
absent-resolvable id (o ∷ os) absent =
    let unlike : is_resolvable id o ≡ false = ground (arith, absent) in
    rw unlike (absent-resolvable id os (ground (arith, absent)))

absent-concerns :
    (id : ℕ) (os : List Observation)
    → contains id (map id_of os) ≡ false
    → any (concerns id) (opens os) ≡ false
absent-concerns id [] absent = refl
absent-concerns id (o ∷ os) absent = elim (Bool-cases (is_open o)) [
  | inl is_in ↦
      let differ : (o.observation_id == id) ≡ false = ground (arith, absent) in
      rw is_in (rw differ (absent-concerns id os (ground (arith, absent))))
  | inr out ↦ rw out (absent-concerns id os (ground (arith, absent)))
]

opens-resolve :
    (os : List Observation)
    → all_distinct (map id_of os) ≡ true
    → all no_discrepancy os ≡ true
    → resolves_all (opens os) os ≡ true
unfolding resolves_all
opens-resolve [] distinct matches = refl
opens-resolve (o ∷ os) distinct matches = elim (Bool-cases (is_open o)) [
  | inl is_in ↦
      let absent : contains (id_of o) (map id_of os) ≡ false = ground (arith, distinct) in
      let mine : is_resolvable (id_of o) o ≡ true = ground (arith, is_in, matches) in
      rw is_in (
        rw mine (
          rw (absent-resolvable (id_of o) os absent) (
            rw (absent-concerns (id_of o) os absent) (
              resolves-more o (opens os) os (absent-concerns (id_of o) os absent)
              ∙ opens-resolve os (ground (arith, distinct)) (ground (arith, matches))))))
  | inr out ↦
      let absent : contains (id_of o) (map id_of os) ≡ false = ground (arith, distinct) in
      rw out (
        resolves-more o (opens os) os (absent-concerns (id_of o) os absent)
        ∙ opens-resolve os (ground (arith, distinct)) (ground (arith, matches)))
]

-- While no two observations share an identifier and every open observation is a match, the loop over
-- the actions that a preview plans for the hub succeeds on it.
pub planned_actions-resolve :
    (now : ℕ) (h : Hub)
    → all_distinct (map id_of h.observations) ≡ true
    → all no_discrepancy h.observations ≡ true
    → is_ok (resolve_observations now (map planned_action (open_observations h)) h) ≡ true
unfolding open_observations
planned_actions-resolve now h distinct matches =
    resolve_observations-resolves_all now (map planned_action (open_observations h)) h
    ∙ order-resolves (select is_open h.observations) h.observations
    ∙ opens-resolve h.observations distinct matches
