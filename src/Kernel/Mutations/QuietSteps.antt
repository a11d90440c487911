-- ===== src/Kernel/Mutations/QuietSteps.antt =====
-- The steps of the handlers that leave the event log alone.
use mathlib.Core.Path.{subst}
use codex_post_office.Base.{
  ℕ, ◌≡◌, refl, ◌∙◌, ok, String, true, Option, none, some, List, arith, eq_iff,
}
use codex_post_office.Hub.{
  Hub, Scope, Task, TaskState, Project, Payload, project_payload, task_payload, ProjectPayload,
  TaskPayload, Mailbox, AuthorAction,
}
use codex_post_office.Kernel.Events.Query.{Request, aggregate_matches}
use codex_post_office.Kernel.Transaction.{Tx, pure, ◌>>=◌}
use codex_post_office.Kernel.Authority.Call.{Call}
use codex_post_office.Kernel.Authority.Basis.{
  retain_action, prepare_action, prepare_grant, basis_by, prepare_mutation_authority,
}
use codex_post_office.Kernel.Grows.{
  >>=-ok, Quiet, Quiet-pure, Quiet-raise, Quiet-reading, Quiet-require, Quiet-row, Quiet-modify,
  Quiet-bind,
}
use codex_post_office.Kernel.Mutations.Tasks
use codex_post_office.Kernel.Mutations.Tasks.{
  TaskOperation, Change, task_change, bind_change, activate_change, block_change, move_change,
  response_change, review_change, close_change,
}
use codex_post_office.Kernel.Mutations.Projects.{
  ProjectOperation, change, pause, archive, project_change, replace_domains, set_name, set_policy,
}
use codex_post_office.Kernel.Mutations.Grants.{GrantRequest, grant_admissible}
use codex_post_office.Kernel.Mutations.Mailboxes.{insert_mailbox}
use codex_post_office.Kernel.Mutations.Plans.{
  plannable, insert_target, project_plannable, task_plannable,
}

-- The aggregate of the request is the one that the gate was given.
pub aggregate_matches-eq :
    (r : Request) (kind : String) (id version root : ℕ)
    → aggregate_matches r kind id version root ≡ true
    → (r.aggregate_type ≡ kind) × (r.aggregate_id ≡ id)
unfolding aggregate_matches
aggregate_matches-eq r kind id version root h =
    (ground (arith, eq_iff r.aggregate_type kind), ground (arith, eq_iff r.aggregate_type kind))

Quiet-retain : (c : Call) (id : ℕ) (o : Option AuthorAction) → Quiet (retain_action c id o)
unfolding retain_action
Quiet-retain c id none = Quiet-modify _ (λ h. refl)
Quiet-retain c id (some a) = Quiet-require _ _

Quiet-prepare_action : (c : Call) (id : ℕ) → Quiet (prepare_action c id)
unfolding prepare_action
Quiet-prepare_action c id = Quiet-bind _ _ (Quiet-require _ _) λ _.
    Quiet-bind _ _ (Quiet-reading _) λ r. Quiet-bind _ _ (Quiet-retain c id r) λ _. Quiet-pure _

Quiet-prepare_grant : (c : Call) (id : ℕ) (facts : Scope) → Quiet (prepare_grant c id facts)
unfolding prepare_grant
Quiet-prepare_grant c id facts =
    Quiet-bind _ _ (Quiet-row _ _) λ _. Quiet-bind _ _ (Quiet-require _ _) λ _. Quiet-pure _

Quiet-basis_by :
    (c : Call) (facts : Scope) (action grant : Option ℕ) → Quiet (basis_by c facts action grant)
unfolding basis_by
Quiet-basis_by c facts none none = Quiet-raise _
Quiet-basis_by c facts none (some g) = Quiet-prepare_grant c g facts
Quiet-basis_by c facts (some a) none = Quiet-prepare_action c a
Quiet-basis_by c facts (some a) (some g) = Quiet-raise _

pub Quiet-prepare_authority :
    (c : Call) (facts : Scope) → Quiet (prepare_mutation_authority c facts)
unfolding prepare_mutation_authority
Quiet-prepare_authority c facts = Quiet-basis_by c facts _ _

-- A quiet step whose result meets a predicate.
pub record Made {A : Type 0} (P : A → Type 0) (m : Tx A) : Type 0 where
  pub at : (h : Hub) (a : A) (g : Hub) → m h ≡ ok (a, g) → (g.events ≡ h.events) × P a

module _ {A : Type 0} (P : A → Type 0) where
  pub Made-pure : (a : A) → P a → Made P (pure a)
  unfolding pure
  Made-pure a p = record { at = λ h b g e. (ground arith, subst P (ground arith) p) }

  pub Made-bind :
      {B : Type 0} (m : Tx B) (f : B → Tx A) → Quiet m → ((b : B) → Made P (f b)) → Made P (m >>= f)
  Made-bind m f qm gf = record {
    at = λ h b k e.
        let (a, g, p, q) = >>=-ok m f h e in
        let (same, made) = (gf a).at g b k q in (same ∙ qm.at h a g p, made);
  }

-- The update that the handler leaves to `_finalize_mutation` keeps the log
-- and the authors' actions.
abbrev pub LinkIsQuiet : Change → Type 0
LinkIsQuiet r =
    (e : ℕ) (h : Hub) → ((r.link e h).events ≡ h.events) × ((r.link e h).actions ≡ h.actions)

module _ (f : ℕ → ℕ → ℕ) (c : Call) (t : Task) where
  Made-bind_change : (e g : ℕ) → Made LinkIsQuiet (bind_change c t e g)
  unfolding bind_change
  Made-bind_change e g = Made-bind _ _ _ (Quiet-require _ _) λ _.
      Made-bind _ _ _ (Quiet-row _ _) λ _. Made-bind _ _ _ (Quiet-require _ _) λ _.
        Made-bind _ _ _ (Quiet-row _ _) λ _. Made-bind _ _ _ (Quiet-require _ _) λ _.
          Made-bind _ _ _ (Quiet-modify _ (λ h. refl)) λ _.
            Made-bind _ _ _ (Quiet-modify _ (λ h. refl)) λ _. Made-pure _ _ (λ e h. (refl, refl))

  Made-activate_change : Made LinkIsQuiet (activate_change c t)
  unfolding activate_change
  Made-activate_change = Made-bind _ _ _ (Quiet-require _ _) λ _.
      Made-bind _ _ _ (Quiet-require _ _)
        λ _. Made-bind _ _ _ (Quiet-modify _ (λ h. refl)) λ _. Made-pure _ _ (λ e h. (refl, refl))

  Made-block_change : (reason : ℕ) → Made LinkIsQuiet (block_change c t reason)
  unfolding block_change
  Made-block_change reason =
      Made-bind _ _ _ (Quiet-require _ _)
        λ _. Made-bind _ _ _ (Quiet-modify _ (λ h. refl)) λ _. Made-pure _ _ (λ e h. (refl, refl))

  Made-move_change : (p reason : ℕ) → Made LinkIsQuiet (move_change c t p reason)
  unfolding move_change
  Made-move_change p reason = Made-bind _ _ _ (Quiet-require _ _) λ _.
      Made-bind _ _ _ (Quiet-require _ _) λ _. Made-bind _ _ _ (Quiet-row _ _) λ _.
        Made-bind _ _ _ (Quiet-require _ _) λ _.
          Made-bind _ _ _ (Quiet-require _ _) λ _.
            Made-bind _ _ _ (Quiet-modify _ (λ h. refl)) λ _. Made-pure _ _ (λ e h. (refl, refl))

  Made-response_change : (m : ℕ) (es : List ℕ) → Made LinkIsQuiet (response_change f c t m es)
  unfolding response_change
  Made-response_change m es = Made-bind _ _ _ (Quiet-require _ _) λ _.
      Made-bind _ _ _ (Quiet-require _ _) λ _.
        Made-bind _ _ _ (Quiet-modify _ (λ h. refl))
          λ _. Made-bind _ _ _ (Quiet-modify _ (λ h. refl)) λ _. Made-pure _ _ (λ e h. (refl, refl))

  Made-review_change : (d : TaskState) (reason : ℕ) → Made LinkIsQuiet (review_change c t d reason)
  unfolding review_change
  Made-review_change d reason = Made-bind _ _ _ (Quiet-require _ _) λ _.
      Made-bind _ _ _ (Quiet-require _ _) λ _. Made-bind _ _ _ (Quiet-require _ _) λ _.
        Made-bind _ _ _ (Quiet-modify _ (λ h. refl))
          λ _. Made-bind _ _ _ (Quiet-modify _ (λ h. refl)) λ _. Made-pure _ _ (λ e h. (refl, refl))

  Made-close_change : (summary : ℕ) → Made LinkIsQuiet (close_change c t summary)
  unfolding close_change
  Made-close_change summary =
      Made-bind _ _ _ (Quiet-require _ _)
        λ _. Made-bind _ _ _ (Quiet-modify _ (λ h. refl)) λ _. Made-pure _ _ (λ e h. (refl, refl))

  pub Made-task_change : (op : TaskOperation) → Made LinkIsQuiet (task_change f c t op)
  unfolding task_change
  Made-task_change (Tasks.bind_endpoint e g) = Made-bind_change e g
  Made-task_change Tasks.activate = Made-activate_change
  Made-task_change (Tasks.block r) = Made-block_change r
  Made-task_change (Tasks.move_project p r) = Made-move_change p r
  Made-task_change (Tasks.record_response m es) = Made-response_change m es
  Made-task_change (Tasks.review d r) = Made-review_change d r
  Made-task_change (Tasks.close s) = Made-close_change s

Quiet-replace_domains : (id : ℕ) (o : Option (List ℕ)) → Quiet (replace_domains id o)
unfolding replace_domains
Quiet-replace_domains id none = Quiet-pure _
Quiet-replace_domains id (some ds) = Quiet-bind _ _ (Quiet-require _ _) λ _.
    Quiet-bind _ _ (Quiet-require _ _)
      λ _. Quiet-bind _ _ (Quiet-require _ _) λ _. Quiet-modify _ (λ h. refl)

set_name-events : (id : ℕ) (o : Option ℕ) (h : Hub) → (set_name id o h).events ≡ h.events
set_name-events id none h = refl
set_name-events id (some n) h = refl

set_policy-events : (id : ℕ) (o : Option ℕ) (h : Hub) → (set_policy id o h).events ≡ h.events
set_policy-events id none h = refl
set_policy-events id (some n) h = refl

pub Quiet-project_change : (p : Project) (op : ProjectOperation) → Quiet (project_change p op)
unfolding project_change
Quiet-project_change p (change x) = Quiet-bind _ _ (Quiet-require _ _) λ _.
    Quiet-bind _ _ (Quiet-modify _ (set_name-events p.project_id x.display_name)) λ _.
      Quiet-bind _ _ (Quiet-modify _ (set_policy-events p.project_id x.policy_root))
        λ _. Quiet-bind _ _ (Quiet-replace_domains _ _) λ _. Quiet-pure _
Quiet-project_change p (pause r) =
    Quiet-bind _ _ (Quiet-require _ _)
      λ _. Quiet-bind _ _ (Quiet-modify _ (λ h. refl)) λ _. Quiet-pure _
Quiet-project_change p (archive r) = Quiet-bind _ _ (Quiet-require _ _) λ _.
    Quiet-bind _ _ (Quiet-require _ _)
      λ _. Quiet-bind _ _ (Quiet-modify _ (λ h. refl)) λ _. Quiet-pure _

Quiet-project_plannable : (p : ProjectPayload) → Quiet (project_plannable p)
unfolding project_plannable
Quiet-project_plannable p =
    Quiet-bind _ _ (Quiet-require _ _)
      λ _. Quiet-bind _ _ (Quiet-require _ _) λ _. Quiet-require _ _

Quiet-task_plannable : (p : TaskPayload) → Quiet (task_plannable p)
unfolding task_plannable
Quiet-task_plannable p = Quiet-bind _ _ (Quiet-require _ _) λ _.
    Quiet-bind _ _ (Quiet-require _ _) λ _. Quiet-bind _ _ (Quiet-require _ _) λ _.
      Quiet-bind _ _ (Quiet-require _ _) λ _.
        Quiet-bind _ _ (Quiet-row _ _)
          λ _. Quiet-bind _ _ (Quiet-require _ _) λ _. Quiet-require _ _

pub Quiet-plannable : (p : Payload) → Quiet (plannable p)
unfolding plannable
Quiet-plannable (project_payload p) = Quiet-project_plannable p
Quiet-plannable (task_payload p) = Quiet-task_plannable p

pub Quiet-insert_target : (p : Payload) → Quiet (insert_target p)
unfolding insert_target
Quiet-insert_target (project_payload p) =
    Quiet-bind _ _ (Quiet-require _ _)
      λ _. Quiet-bind _ _ (Quiet-modify _ (λ h. refl)) λ _. Quiet-reading _
Quiet-insert_target (task_payload p) =
    Quiet-bind _ _ (Quiet-require _ _)
      λ _. Quiet-bind _ _ (Quiet-modify _ (λ h. refl)) λ _. Quiet-reading _

pub Quiet-insert_mailbox : (m : Mailbox) → Quiet (insert_mailbox m)
Quiet-insert_mailbox m = Quiet-bind _ _ (Quiet-require _ _) λ _. Quiet-modify _ (λ h. refl)

pub Quiet-grant_admissible :
    (names : List String) (c : Call) (g : GrantRequest) → Quiet (grant_admissible names c g)
Quiet-grant_admissible names c g = Quiet-bind _ _ (Quiet-require _ _) λ _.
    Quiet-bind _ _ (Quiet-require _ _) λ _. Quiet-bind _ _ (Quiet-require _ _) λ _.
      Quiet-bind _ _ (Quiet-require _ _)
        λ _. Quiet-bind _ _ (Quiet-reading _) λ _. Quiet-require _ _
