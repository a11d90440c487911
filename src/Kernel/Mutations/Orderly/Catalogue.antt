-- ===== src/Kernel/Mutations/Orderly/Catalogue.antt =====
-- The handlers of packages, interfaces and cycles are orderly.
use codex_post_office.Base.{ℕ, ◌+◌, refl, String, Option, none, some, List, Json}
use codex_post_office.Hub.{SoftwarePackage, Cycle}
use codex_post_office.Kernel.Authority.Call.{Call}
use codex_post_office.Kernel.Authority.Basis.{Basis}
use codex_post_office.Kernel.Grows.{
  Quiet, Quiet-pure, Quiet-raise, Quiet-reading, Quiet-modify, Quiet-bind,
}
use codex_post_office.Kernel.Mutations.Judgements.{
  Orderly, OrderlyAt, Settles, SettlesAt, Orderly-Still, OrderlyAt-Still, Orderly-gate,
  Orderly-prepare, OrderlyAt-prepare, Settles-Quiet, SettlesAt-Quiet, SettlesAt-Settles,
  IsStill-reading, finalize_mutation-Settles, finalize_mutation-SettlesAt,
}
use codex_post_office.Kernel.Mutations.Packages
use codex_post_office.Kernel.Mutations.Packages.{
  PackageDraft, PackageOperation, deprecate_version, package_change, register_package,
  package_mutation,
}
use codex_post_office.Kernel.Mutations.Interfaces
use codex_post_office.Kernel.Mutations.Interfaces.{
  InterfaceOperation, finish_interface, interface_change, interface_mutation,
}
use codex_post_office.Kernel.Mutations.Cycles
use codex_post_office.Kernel.Mutations.Cycles.{
  CycleStep, CycleOperation, insert_cycle, close_cycle, cycle_change, finish_cycle, cycle_operation,
  cycle_mutation,
}

Quiet-deprecate_version : (id : ℕ) (version : Option ℕ) → Quiet (deprecate_version id version)
unfolding deprecate_version
Quiet-deprecate_version id none = Quiet-pure _
Quiet-deprecate_version id (some v) =
    Quiet-bind _ _ (Quiet-reading _) λ _. Quiet-modify _ (λ h. refl)

Quiet-insert_cycle :
    (id project text : ℕ) (action : Option ℕ) → Quiet (insert_cycle id project text action)
unfolding insert_cycle
Quiet-insert_cycle id project text none = Quiet-raise _
Quiet-insert_cycle id project text (some a) = Quiet-modify _ (λ h. refl)

Quiet-close_cycle : (id : ℕ) (action : Option ℕ) → Quiet (close_cycle id action)
unfolding close_cycle
Quiet-close_cycle id none = Quiet-raise _
Quiet-close_cycle id (some a) = Quiet-modify _ (λ h. refl)

Quiet-cycle_change : (c : Call) (y : Cycle) (op : CycleStep) → Quiet (cycle_change c y op)
unfolding cycle_change
Quiet-cycle_change c y (Cycles.mark_awaiting_review summary) =
    Quiet-bind _ _ (Quiet-reading _)
      λ _. Quiet-bind _ _ (Quiet-modify _ (λ h. refl)) λ _. Quiet-pure _
Quiet-cycle_change c y (Cycles.accept decision) = Quiet-bind _ _ (Quiet-reading _) λ _.
    Quiet-bind _ _ (Quiet-reading _)
      λ _. Quiet-bind _ _ (Quiet-modify _ (λ h. refl)) λ _. Quiet-pure _
Quiet-cycle_change c y (Cycles.close decision) =
    Quiet-bind _ _ (Quiet-reading _) λ _. Quiet-bind _ _ (Quiet-close_cycle _ _) λ _. Quiet-pure _

module _ (sha256_json : Json → ℕ) (c : Call) where
  pub register_package-Orderly :
      (d : PackageDraft) → Orderly sha256_json c (register_package sha256_json c d)
  unfolding register_package
  register_package-Orderly d = Orderly-Still _ _ _ _ (IsStill-reading _) λ _.
      Orderly-Still _ _ _ _ (IsStill-reading _) λ _. Orderly-Still _ _ _ _ (IsStill-reading _) λ _.
        Orderly-Still _ _ _ _ (IsStill-reading _) λ _.
          Orderly-Still _ _ _ _ (IsStill-reading _) λ _. Orderly-prepare _ _ _ _ λ basis.
            Settles-Quiet _ _ _ _ _ (Quiet-modify _ (λ h. refl)) λ _.
              Settles-Quiet _ _ _ _ _ (Quiet-reading _) λ _.
                Settles-Quiet _ _ _ _ _ (Quiet-reading _) λ _.
                  Settles-Quiet _ _ _ _ _ (Quiet-modify _ (λ h. refl))
                    λ _. finalize_mutation-Settles _ _ basis _ (λ e h. (refl, refl)) refl

  Quiet-package_change :
      (rehome_id : ℕ → ℕ) (p : SoftwarePackage) (op : PackageOperation)
      → Quiet (package_change sha256_json rehome_id p op)
  unfolding package_change
  Quiet-package_change rehome_id p (Packages.register_version v root) =
      Quiet-bind _ _ (Quiet-reading _) λ _. Quiet-bind _ _ (Quiet-reading _) λ _.
        Quiet-bind _ _ (Quiet-reading _) λ _.
          Quiet-bind _ _ (Quiet-modify _ (λ h. refl))
            λ _. Quiet-bind _ _ (Quiet-modify _ (λ h. refl)) λ _. Quiet-pure _
  Quiet-package_change rehome_id p (Packages.rehome d root id) =
      Quiet-bind _ _ (Quiet-reading _) λ _. Quiet-bind _ _ (Quiet-reading _) λ _.
        Quiet-bind _ _ (Quiet-reading _) λ _.
          Quiet-bind _ _ (Quiet-reading _)
            λ _. Quiet-bind _ _ (Quiet-modify _ (λ h. refl)) λ _. Quiet-pure _
  Quiet-package_change rehome_id p (Packages.deprecate v reason replacement) =
      Quiet-bind _ _ (Quiet-reading _) λ _.
        Quiet-bind _ _ (Quiet-deprecate_version _ v)
          λ _. Quiet-bind _ _ (Quiet-modify _ (λ h. refl)) λ _. Quiet-pure _

  pub package_mutation-Orderly :
      (rehome_id : ℕ → ℕ) (id : ℕ) (op : PackageOperation)
      → Orderly sha256_json c (package_mutation sha256_json rehome_id c id op)
  unfolding package_mutation
  package_mutation-Orderly rehome_id id op = Orderly-Still _ _ _ _ (IsStill-reading _) λ p.
      Orderly-Still _ _ _ _ (IsStill-reading _) λ _. Orderly-gate _ _ _ _ _ _ _ λ v.
        OrderlyAt-prepare _ _ _ _ _ _ _ _ λ basis.
          SettlesAt-Quiet _ _ _ _ _ _ _ _ _ (Quiet-package_change rehome_id p op) λ _.
            SettlesAt-Quiet _ _ _ _ _ _ _ _ _ (Quiet-reading _) λ _.
              SettlesAt-Quiet _ _ _ _ _ _ _ _ _ (Quiet-reading _) λ _.
                SettlesAt-Quiet _ _ _ _ _ _ _ _ _ (Quiet-modify _ (λ h. refl)) λ _.
                  finalize_mutation-SettlesAt _ _ basis _ _ _ _ v (λ e h. (refl, refl)) refl refl

  finish_interface-SettlesAt :
      (basis : Basis) (id root v : ℕ) (created : List ℕ) (r : List (String × Json))
      → SettlesAt sha256_json c basis "Interface" id root v
          (finish_interface sha256_json c basis id root v created r)
  unfolding finish_interface
  finish_interface-SettlesAt basis id root v created r =
      SettlesAt-Quiet _ _ _ _ _ _ _ _ _ (Quiet-reading _)
        λ _. finalize_mutation-SettlesAt _ _ basis _ _ _ _ v (λ e h. (refl, refl)) refl refl

  interface_change-OrderlyAt :
      (id root v : ℕ) (created : List ℕ) (op : InterfaceOperation)
      → OrderlyAt sha256_json c "Interface" id root v
          (interface_change sha256_json c id root v created op)
  unfolding interface_change
  interface_change-OrderlyAt id root v created (Interfaces.register d) =
      OrderlyAt-Still _ _ _ _ _ _ _ _ (IsStill-reading _) λ _.
        OrderlyAt-Still _ _ _ _ _ _ _ _ (IsStill-reading _) λ _.
          OrderlyAt-Still _ _ _ _ _ _ _ _ (IsStill-reading _) λ _.
            OrderlyAt-Still _ _ _ _ _ _ _ _ (IsStill-reading _) λ _.
              OrderlyAt-prepare _ _ _ _ _ _ _ _ λ basis.
                SettlesAt-Quiet _ _ _ _ _ _ _ _ _ (Quiet-modify _ (λ h. refl))
                  λ _. finish_interface-SettlesAt basis id root v created _
  interface_change-OrderlyAt id root v created (Interfaces.deprecate n reason replacement) =
      OrderlyAt-Still _ _ _ _ _ _ _ _ (IsStill-reading _) λ _.
        OrderlyAt-Still _ _ _ _ _ _ _ _ (IsStill-reading _) λ _.
          OrderlyAt-prepare _ _ _ _ _ _ _ _ λ basis.
            SettlesAt-Quiet _ _ _ _ _ _ _ _ _ (Quiet-reading _) λ _.
              SettlesAt-Quiet _ _ _ _ _ _ _ _ _ (Quiet-modify _ (λ h. refl))
                λ _. finish_interface-SettlesAt basis id root v created _

  pub interface_mutation-Orderly :
      (id : ℕ) (op : InterfaceOperation)
      → Orderly sha256_json c (interface_mutation sha256_json c id op)
  unfolding interface_mutation
  interface_mutation-Orderly id op = Orderly-Still _ _ _ _ (IsStill-reading _) λ _.
      Orderly-Still _ _ _ _ (IsStill-reading _) λ root.
        Orderly-Still _ _ _ _ (IsStill-reading _)
          λ created. Orderly-gate _ _ _ _ _ _ _ λ v. interface_change-OrderlyAt id root v created op

  finish_cycle-Settles :
      (basis : Basis) (id root : ℕ) (created : List ℕ) (r : List (String × Json))
      → Settles sha256_json c basis (finish_cycle sha256_json c basis id root 1 created r)
  unfolding finish_cycle
  finish_cycle-Settles basis id root created r = Settles-Quiet _ _ _ _ _ (Quiet-reading _) λ _.
      Settles-Quiet _ _ _ _ _ (Quiet-reading _) λ _.
        Settles-Quiet _ _ _ _ _ (Quiet-modify _ (λ h. refl))
          λ _. finalize_mutation-Settles _ _ basis _ (λ e h. (refl, refl)) refl

  finish_cycle-SettlesAt :
      (basis : Basis) (id root v : ℕ) (created : List ℕ) (r : List (String × Json))
      → SettlesAt sha256_json c basis "SemanticCycle" id root v
          (finish_cycle sha256_json c basis id root (v + 1) created r)
  unfolding finish_cycle
  finish_cycle-SettlesAt basis id root v created r =
      SettlesAt-Quiet _ _ _ _ _ _ _ _ _ (Quiet-reading _) λ _.
        SettlesAt-Quiet _ _ _ _ _ _ _ _ _ (Quiet-reading _) λ _.
          SettlesAt-Quiet _ _ _ _ _ _ _ _ _ (Quiet-modify _ (λ h. refl))
            λ _. finalize_mutation-SettlesAt _ _ basis _ _ _ _ v (λ e h. (refl, refl)) refl refl

  cycle_operation-OrderlyAt :
      (id root v : ℕ) (found : Option Cycle) (op : CycleOperation)
      → OrderlyAt sha256_json c "SemanticCycle" id root v
          (cycle_operation sha256_json c id root v found op)
  unfolding cycle_operation
  cycle_operation-OrderlyAt id root v found (Cycles.open_cycle project text) =
      OrderlyAt-Still _ _ _ _ _ _ _ _ (IsStill-reading _) λ _.
        OrderlyAt-Still _ _ _ _ _ _ _ _ (IsStill-reading _) λ _.
          OrderlyAt-Still _ _ _ _ _ _ _ _ (IsStill-reading _) λ _.
            OrderlyAt-prepare _ _ _ _ _ _ _ _ λ basis.
              SettlesAt-Quiet _ _ _ _ _ _ _ _ _ (Quiet-insert_cycle _ _ _ _)
                λ _. SettlesAt-Settles _ _ _ _ _ _ _ _ (finish_cycle-Settles basis id root _ _)
  cycle_operation-OrderlyAt id root v found (Cycles.step op) =
      OrderlyAt-Still _ _ _ _ _ _ _ _ (IsStill-reading _) λ y.
        OrderlyAt-prepare _ _ _ _ _ _ _ _ λ basis.
          SettlesAt-Quiet _ _ _ _ _ _ _ _ _ (Quiet-cycle_change c y op)
            λ _. finish_cycle-SettlesAt basis id root v _ _

  pub cycle_mutation-Orderly :
      (id : ℕ) (op : CycleOperation) → Orderly sha256_json c (cycle_mutation sha256_json c id op)
  unfolding cycle_mutation
  cycle_mutation-Orderly id op = Orderly-Still _ _ _ _ (IsStill-reading _) λ _.
      Orderly-Still _ _ _ _ (IsStill-reading _) λ found.
        Orderly-Still _ _ _ _ (IsStill-reading _)
          λ root. Orderly-gate _ _ _ _ _ _ _ λ v. cycle_operation-OrderlyAt id root v found op
