-- ===== src/Kernel/Authority/Conditions.antt =====
-- The tests of `_prepare_mutation_authority`, as conditions on rows.
use codex_post_office.Base.{
  ℕ, ◌≡◌, refl, sym, Bool, true, false, String, Option, none, some, List, [], ◌∷◌, find, contains,
  intersects, ◌==◌, str_eq, eq_iff, is_some, arith, Bool-cases, inl, inr,
}
use codex_post_office.Hub.{AuthorAction, GrantStatus, Scope, is_active_grant}
use codex_post_office.Kernel.Authority.Call.{names, is_past}
use codex_post_office.Kernel.Authority.Scopes.{is_empty, field_allows, scope_allows}
use codex_post_office.Kernel.Authority.Basis.{exhausted_uses}
use codex_post_office.Kernel.Authority.Authorised.{is_constrained}
use codex_post_office.Kernel.Authority.Permitted
use codex_post_office.Kernel.Authority.Permitted.{
  IsAuthor, IsUnused, IsConfirmed, IsUnexpired, IsUnspent, Meets, IsConstrained, Covers, IsGranted,
  Permitted,
}
use mathlib.Core.List.{Memᴰ}
use mathlib.Core.List.Memᴰ.{head, tail}

abbrev pub no_facts : Scope
no_facts = record { project_ids = []; task_ids = []; package_ids = []; scope_domains = [] }

pub find-row :
    {A : Type 0} (test : A → Bool) (xs : List A) (x : A)
    → find test xs ≡ some x
    → Memᴰ x xs × (test x ≡ true)
find-row test [] x e = absurd (ground arith)
find-row test (y ∷ ys) x e = elim (Bool-cases (test y)) [
  | inl mine ↦ let same : x ≡ y = ground (arith, e, mine) in (head same, rw same mine)
  | inr other ↦ let (m, t) = find-row test ys x (ground (arith, e, other)) in (tail m, t)
]

pub find-IsUnused :
    (id : ℕ) (as' : List AuthorAction)
    → find (λ (a : AuthorAction). a.action_id == id) as' ≡ none
    → IsUnused id as'
find-IsUnused id [] e = Permitted.nowhere
find-IsUnused id (a ∷ as') e =
    Permitted.elsewhere a as' (λ same. ground (arith, e, same))
      (find-IsUnused id as' (ground (arith, e)))

pub names-Mem : (o : String) (xs : List String) → names o xs ≡ true → Memᴰ o xs
names-Mem o [] e = absurd (ground arith)
names-Mem o (x ∷ xs) e = elim (Bool-cases (str_eq x o)) [
  | inl same ↦ head (sym ((eq_iff x o).0 same))
  | inr other ↦ tail (names-Mem o xs (ground (arith, e, other)))
]

contains-Mem : (a : ℕ) (xs : List ℕ) → contains a xs ≡ true → Memᴰ a xs
contains-Mem a [] e = absurd (ground arith)
contains-Mem a (x ∷ xs) e = elim (Bool-cases (x == a)) [
  | inl same ↦ head (ground (arith, same))
  | inr other ↦ tail (contains-Mem a xs (ground (arith, e, other)))
]

intersects-Mem : (xs ys : List ℕ) → intersects xs ys ≡ true → (v : ℕ) × Memᴰ v xs × Memᴰ v ys
intersects-Mem [] ys e = absurd (ground arith)
intersects-Mem (x ∷ xs) ys e = elim (Bool-cases (contains x ys)) [
  | inl mine ↦ (x, head refl, contains-Mem x ys mine)
  | inr other ↦ let (v, m, n) = intersects-Mem xs ys (ground (arith, e, other)) in (v, tail m, n)
]

field_allows-Meets : (xs ys : List ℕ) → field_allows xs ys ≡ true → Meets xs ys
field_allows-Meets [] ys e = Permitted.unconstrained refl
field_allows-Meets (x ∷ xs) ys e =
    let (v, m, n) = intersects-Mem (x ∷ xs) ys (ground (arith, e)) in Permitted.shared v m n

first_of : (xs : List ℕ) → is_empty xs ≡ false → (v : ℕ) × Memᴰ v xs
first_of [] e = absurd (ground arith)
first_of (x ∷ xs) e = (x, head refl)

constrained : (s : Scope) → is_constrained s ≡ true → IsConstrained s
constrained s e = elim (Bool-cases (is_empty s.project_ids)) [
  | inr some_project ↦ let (v, m) = first_of s.project_ids some_project in Permitted.projects v m
  | inl no_project ↦ elim (Bool-cases (is_empty s.task_ids)) [
    | inr some_task ↦ let (v, m) = first_of s.task_ids some_task in Permitted.tasks v m
    | inl no_task ↦ elim (Bool-cases (is_empty s.package_ids)) [
      | inr some_package ↦
          let (v, m) = first_of s.package_ids some_package in Permitted.packages v m
      | inl no_package ↦
          let (v, m) =
            first_of s.scope_domains (ground (arith, e, no_project, no_task, no_package)) in
          Permitted.mail_domains v m
    ]
  ]
]

pub scope_allows-Covers : (s facts : Scope) → scope_allows s facts ≡ true → Covers s facts
unfolding scope_allows
scope_allows-Covers s facts e = record {
  by_projects = field_allows-Meets s.project_ids facts.project_ids (ground (arith, e));
  by_tasks = field_allows-Meets s.task_ids facts.task_ids (ground (arith, e));
  by_packages = field_allows-Meets s.package_ids facts.package_ids (ground (arith, e));
  by_domains = field_allows-Meets s.scope_domains facts.scope_domains (ground (arith, e));
  is_constrained = constrained s (ground (arith, e));
}

-- A scope covers itself.
Meets-self : (xs : List ℕ) → Meets xs xs
Meets-self [] = Permitted.unconstrained refl
Meets-self (x ∷ xs) = Permitted.shared x (head refl) (head refl)

pub Covers-self : (s : Scope) → is_constrained s ≡ true → Covers s s
Covers-self s e = record {
  by_projects = Meets-self s.project_ids;
  by_tasks = Meets-self s.task_ids;
  by_packages = Meets-self s.package_ids;
  by_domains = Meets-self s.scope_domains;
  is_constrained = constrained s e;
}

pub IsUnexpired-by : (now : ℕ) (o : Option ℕ) → is_past o now ≡ false → IsUnexpired now o
IsUnexpired-by now none e = Permitted.never
IsUnexpired-by now (some t) e = Permitted.before t (ground (arith, e))

pub IsUnspent-by : (o : Option ℕ) → exhausted_uses o ≡ false → IsUnspent o
IsUnspent-by none e = Permitted.unlimited
IsUnspent-by (some n) e = Permitted.left n (ground (arith, e))

pub active-by : (s : GrantStatus) → is_active_grant s ≡ true → s ≡ GrantStatus.active
active-by s e = ground (arith, e)

pub none-by : (o : Option ℕ) → is_some o ≡ false → o ≡ none
none-by none e = refl
none-by (some n) e = absurd (ground arith)
