-- ===== src/Kernel/Authority/Scopes.antt =====
-- `_scope_projects`, `_validate_endpoint_access_scope` and `_scope_allows`.
use codex_post_office.Base.{
  ℕ, ◌+◌, Bool, true, false, not, ◌&&◌, ◌||◌, Option, none, some, List, [], ◌∷◌, Result, ok, err,
  raised, Code, check, found, then_with, find, all, contains, intersects, length, ◌==◌,
  if◌then◌else◌,
}
use codex_post_office.Hub.{Hub, Scope, Project, Task, SoftwarePackage, MailDomain}

-- A field of a scope: the four keys, in the order of the loops.
pub data ScopeKey : Type 0 where
  project_key task_key package_key domain_key : ScopeKey

abbrev pub members : ScopeKey → Scope → List ℕ
members project_key s = s.project_ids
members task_key s = s.task_ids
members package_key s = s.package_ids
members domain_key s = s.scope_domains

abbrev project_column : Option Project → Option ℕ
project_column none = none
project_column (some p) = some p.project_id

abbrev task_column : Option Task → Option ℕ
task_column none = none
task_column (some t) = some t.project_id

abbrev package_column : Option SoftwarePackage → Option ℕ
package_column none = none
package_column (some p) = some p.owning_project_id

abbrev domain_column : Option MailDomain → Option ℕ
domain_column none = none
domain_column (some d) = some d.project_id

-- the project that owns the entity
pub owner : Hub → ScopeKey → ℕ → Option ℕ
owner h project_key v = project_column (find (λ (p : Project). p.project_id == v) h.projects)
owner h task_key v = task_column (find (λ (t : Task). t.task_id == v) h.tasks)
owner h package_key v =
    package_column (find (λ (p : SoftwarePackage). p.package_id == v) h.packages)
owner h domain_key v = domain_column (find (λ (d : MailDomain). d.mail_domain == v) h.mail_domains)

-- the members of one field, each with its owning project
pub resolve_members : Hub → ScopeKey → List ℕ → Result (List (ℕ × ℕ))
resolve_members h key [] = ok []
resolve_members h key (v ∷ vs) =
    let rest = resolve_members h key vs in
    then_with (found (owner h key v) (raised Code.input_invalid))
      λ p. then_with rest λ rows. ok ((v, p) ∷ rows)

-- `resolved`
pub record Resolved : Type 0 where
  pub of_key : ScopeKey → List (ℕ × ℕ)

abbrev by_key : List (ℕ × ℕ) → List (ℕ × ℕ) → List (ℕ × ℕ) → List (ℕ × ℕ) → ScopeKey → List (ℕ × ℕ)
by_key a b c d project_key = a
by_key a b c d task_key = b
by_key a b c d package_key = c
by_key a b c d domain_key = d

-- `_scope_projects`: every member is known, and there is at least one.
unfoldable pub scope_projects : Hub → Scope → Result Resolved
scope_projects h s = then_with (resolve_members h project_key s.project_ids) λ a.
    then_with (resolve_members h task_key s.task_ids) λ b.
      then_with (resolve_members h package_key s.package_ids) λ c.
        then_with (resolve_members h domain_key s.scope_domains) λ d.
          if length s.project_ids
              + length s.task_ids
              + length s.package_ids
              + length s.scope_domains
            == 0
          then err (raised Code.input_invalid)
          else ok (record { of_key = by_key a b c d })

abbrev pub within_project : ℕ → List (ℕ × ℕ) → Bool
within_project project rows = all (λ (r : ℕ × ℕ). r.1 == project) rows

abbrev pub permitted : List ℕ → List ℕ → List (ℕ × ℕ) → Bool
permitted exact projects rows =
    all (λ (r : ℕ × ℕ). contains r.0 exact || contains r.1 projects) rows

abbrev every_key : (ScopeKey → Bool) → Bool
every_key test = test project_key && test task_key && test package_key && test domain_key

abbrev task_agrees : Option ℕ → List ℕ → Bool
task_agrees none ids = true
task_agrees (some task) ids = all (λ v. v == task) ids

abbrev covered_by_grant : Hub → Scope → Resolved → Option Scope → Result (Unit {0})
covered_by_grant h access rows none = ok tt
covered_by_grant h access rows (some grant) = then_with (scope_projects h grant) λ _.
    check (every_key (λ key. permitted (members key grant) grant.project_ids (rows.of_key key)))
      (raised Code.authorization_denied)

-- `_validate_endpoint_access_scope`
unfoldable pub validate_endpoint_access_scope :
    Hub → Scope → ℕ → Option ℕ → Option Scope → Result (Unit {0})
validate_endpoint_access_scope h access owner_project owner_task grant =
    then_with (scope_projects h access) λ rows.
      then_with
        (check (every_key (λ key. within_project owner_project (rows.of_key key)))
          (raised Code.input_invalid))
        λ _.
          then_with (check (task_agrees owner_task access.task_ids) (raised Code.input_invalid))
            λ _. covered_by_grant h access rows grant

abbrev pub is_empty : List ℕ → Bool
is_empty [] = true
is_empty (_ ∷ _) = false

-- a field of the scope that constrains nothing, or shares a member with the request's facts
abbrev pub field_allows : List ℕ → List ℕ → Bool
field_allows declared facts = is_empty declared || intersects declared facts

-- `_scope_allows`: at least one field constrains, and each that does meets the facts.
unfoldable pub scope_allows : Scope → Scope → Bool
scope_allows scope facts =
    field_allows scope.project_ids facts.project_ids
    && field_allows scope.task_ids facts.task_ids
    && field_allows scope.package_ids facts.package_ids
    && field_allows scope.scope_domains facts.scope_domains
    && not (
        is_empty scope.project_ids
        && is_empty scope.task_ids
        && is_empty scope.package_ids
        && is_empty scope.scope_domains)
