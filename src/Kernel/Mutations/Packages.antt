-- ===== src/Kernel/Mutations/Packages.antt =====
-- package.register, package.registerVersion, package.rehome and package.deprecate.
use codex_post_office.Base.{
  ℕ, ◌+◌, String, Bool, not, ◌&&◌, Option, none, some, List, [], ◌∷◌, ◌++◌, map, Json, null, num,
  str, arr, obj, opt, truth, nums, any, select, update, length, distinct, ◌==◌, same_option,
  is_some, ok, raised, integrity_error, Code,
}
use codex_post_office.Hub.{
  Hub, SoftwarePackage, PackageStatus, PackageVersion, VersionState, PackageInterface, Direction,
  provides, requires, Task, StorageCopy, is_active_project, is_inactive_package,
  package_status_text,
}
use codex_post_office.Kernel.Transaction.{Tx, pure, require, reading, row, modify, ◌>>=◌, ◌>>◌}
use codex_post_office.Kernel.Documents.{sorted}
use codex_post_office.Kernel.Documents.Catalogue.{package_state}
use codex_post_office.Kernel.Events.Query.{aggregate_root, aggregate_position}
use codex_post_office.Kernel.Authority.Call.{Call}
use codex_post_office.Kernel.Authority.Basis.{prepare_mutation_authority}
use codex_post_office.Kernel.Authority.Finalize.{Response, finalize_mutation}
use codex_post_office.Kernel.Mutations.Common.{
  project_of, package_of, facts, no_link, require_aggregate, require_id,
}
use codex_post_office.Kernel.Mutations.Projects.{is_open_task}

-- The parameter `package`.
pub record PackageDraft : Type 0 where
  pub package_id : ℕ
  pub display_name : ℕ
  pub owning_project_id : ℕ
  pub source_location : Option ℕ
  pub licence : Option ℕ
  pub provided_interface_ids : List ℕ
  pub required_interface_ids : List ℕ

-- The operation on an existing package, with its parameters.
pub data PackageOperation : Type 0 where
  register_version : ℕ → ℕ → PackageOperation
  rehome : ℕ → ℕ → ℕ → PackageOperation
  deprecate : Option ℕ → ℕ → Option ℕ → PackageOperation

abbrev pub is_package : ℕ → SoftwarePackage → Bool
is_package id p = p.package_id == id

abbrev new_package : PackageDraft → SoftwarePackage
new_package d = record {
  package_id = d.package_id;
  display_name = d.display_name;
  owning_project_id = d.owning_project_id;
  status = PackageStatus.proposed;
  source_location = d.source_location;
  licence = d.licence;
  aggregate_version = 1;
  aggregate_root = 0;
  created_event_id = none;
}

-- the rows of `package_interfaces` in one direction, each interface once
abbrev interface_rows : ℕ → Direction → List ℕ → List PackageInterface
interface_rows id d ids =
    map (λ i. record { package_id = id; interface_id = i; direction = d }) (sorted (distinct ids))

abbrev set_package : ℕ → (SoftwarePackage → SoftwarePackage) → Hub → Hub
set_package id change h = record h { packages = update (is_package id) change h.packages }

abbrev has_copy : Hub → ℕ → Bool
has_copy h root = any (λ (s : StorageCopy). s.content_sha256 == root) h.copies

abbrev is_version : ℕ → ℕ → PackageVersion → Bool
is_version id version v = v.package_id == id && v.version == version

-- the open tasks that may change the package, in order
abbrev blocking_tasks : Hub → ℕ → List ℕ
blocking_tasks h id = sorted (
    map (λ (t : Task). t.task_id)
      (select (λ t. same_option t.mutable_package_id (some id) && is_open_task t.state) h.tasks))

-- the branch `if parameters.get("version")`: exactly one row must change
unfoldable pub deprecate_version : ℕ → Option ℕ → Tx (Unit {0})
deprecate_version id none = pure tt
deprecate_version id (some version) = do
  require (λ h. length (select (is_version id version) h.package_versions) == 1)
      (raised Code.input_invalid)
  modify λ h. record h {
    package_versions =
        update (is_version id version) (λ v. record v { state = VersionState.deprecated })
          h.package_versions;
  }

module _ (sha256_json : Json → ℕ) where
  abbrev package_root : ℕ → Json → ℕ
  package_root id detail = aggregate_root sha256_json "SoftwarePackage" id detail

  -- package.register
  unfoldable pub register_package : Call → PackageDraft → Tx Response
  register_package c d = do
    let id = d.package_id
    require (λ h. not (is_some (package_of h id))) (raised Code.concurrency_conflict)
    require_id c.request id
    p ← row (λ h. project_of h d.owning_project_id) (raised Code.input_invalid)
    require (λ _. is_active_project p.status) (raised Code.input_invalid)
    require_aggregate c.request "SoftwarePackage" id 0 (package_root id null)
    basis ← prepare_mutation_authority c (facts (p.project_id ∷ []) [] [] [])
    modify λ h. record h {
      packages = h.packages ++ new_package d ∷ [];
      package_interfaces =
          h.package_interfaces
          ++ interface_rows id provides d.provided_interface_ids
          ++ interface_rows id requires d.required_interface_ids;
    }
    created ← row (λ h. package_of h id) (raised Code.internal_error)
    after_root ← reading (λ h. ok (package_root id (package_state h created)))
    modify (set_package id (λ o. record o { aggregate_root = after_root }))
    finalize_mutation sha256_json c basis (record {
      before_root = package_root id null;
      after_root = after_root;
      aggregate_version = 1;
      created_ids = id ∷ [];
      event_result = ("state", str "PROPOSED") ∷ [];
      link = λ event. set_package id (λ o. record o { created_event_id = some event });
    })

  -- the preview of a rehome
  pub rehome_preview : Hub → SoftwarePackage → ℕ → Json
  rehome_preview h p destination =
      let blockers = blocking_tasks h p.package_id in
      obj (
        ("package", package_state h p)
        ∷ ("destinationProjectId", num destination)
        ∷ ("blockingTaskIds", arr (nums blockers))
        ∷ ("ready", truth (length blockers == 0))
        ∷ [])

  -- The change of each operation, with its event result. `rehome_id` gives the identifier that
  -- begins with PON-REHOME for the root of a preview.
  unfoldable pub package_change :
      (ℕ → ℕ) → SoftwarePackage → PackageOperation → Tx (List (String × Json))
  package_change rehome_id p (register_version version content_root) = do
    require (λ _. not (is_inactive_package p.status)) (raised Code.concurrency_conflict)
    require (λ h. has_copy h content_root) (raised Code.custody_not_verified)
    require (λ h. not (any (is_version p.package_id version) h.package_versions)) integrity_error
    modify λ h. record h {
      package_versions =
          h.package_versions
          ++ record {
            package_id = p.package_id;
            version = version;
            content_root = content_root;
            state = VersionState.accepted;
          }
            ∷ [];
    }
    modify (set_package p.package_id (λ o. record o { status = PackageStatus.accepted }))
    pure (
        ("state", str "ACCEPTED")
        ∷ ("version", num version)
        ∷ ("contentRoot", num content_root)
        ∷ [])
  package_change rehome_id p (rehome destination plan_root approved_plan_id) = do
    target ← row (λ h. project_of h destination) (raised Code.input_invalid)
    require (λ _. is_active_project target.status) (raised Code.input_invalid)
    expected_root ← reading (λ h. ok (sha256_json (rehome_preview h p target.project_id)))
    require
        (λ h.
          length (blocking_tasks h p.package_id) == 0
          && plan_root == expected_root
          && approved_plan_id == rehome_id expected_root)
        (raised Code.concurrency_conflict)
    modify (set_package p.package_id (λ o. record o { owning_project_id = target.project_id }))
    pure (
        ("state", str (package_status_text p.status))
        ∷ ("fromProjectId", num p.owning_project_id)
        ∷ ("toProjectId", num target.project_id)
        ∷ [])
  package_change rehome_id p (deprecate version reason replacement) = do
    require (λ _. not (is_inactive_package p.status)) (raised Code.concurrency_conflict)
    deprecate_version p.package_id version
    modify (set_package p.package_id (λ o. record o { status = PackageStatus.deprecated }))
    pure (
        ("state", str "DEPRECATED")
        ∷ ("reason", num reason)
        ∷ ("replacementPackageId", opt replacement)
        ∷ [])

  -- The handler of the three operations on an existing package.
  unfoldable pub package_mutation : (ℕ → ℕ) → Call → ℕ → PackageOperation → Tx Response
  package_mutation rehome_id c id op = do
    p ← row (λ h. package_of h id) (raised Code.input_invalid)
    before_root ← reading (λ h. ok (package_root id (package_state h p)))
    version ← aggregate_position "SoftwarePackage" id before_root
    require_aggregate c.request "SoftwarePackage" id version before_root
    basis ← prepare_mutation_authority c (facts (p.owning_project_id ∷ []) [] (id ∷ []) [])
    event_result ← package_change rehome_id p op
    updated ← row (λ h. package_of h id) (raised Code.internal_error)
    after_root ← reading (λ h. ok (package_root id (package_state h updated)))
    modify (
        set_package id
          (λ o. record o { aggregate_version = version + 1; aggregate_root = after_root }))
    finalize_mutation sha256_json c basis (record {
      before_root = before_root;
      after_root = after_root;
      aggregate_version = version + 1;
      created_ids = [];
      event_result = event_result;
      link = no_link;
    })
