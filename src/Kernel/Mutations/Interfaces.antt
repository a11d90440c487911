-- ===== src/Kernel/Mutations/Interfaces.antt =====
-- interface.register and interface.deprecate.
use codex_post_office.Base.{
  ℕ, ◌+◌, String, Bool, not, ◌&&◌, Option, none, List, [], ◌∷◌, ◌++◌, map, Json, null, num, str,
  all, find, update, length, distinct, ◌==◌, if◌then◌else◌, is_some, ok, raised, Code,
}
use codex_post_office.Hub.{
  Hub, Interface, InterfaceStatus, Participant, Relation, provider, consumer, is_inactive_package,
  is_inactive_interface, interface_status_text,
}
use codex_post_office.Kernel.Transaction.{Tx, require, reading, row, modify, ◌>>=◌, ◌>>◌}
use codex_post_office.Kernel.Documents.{sorted}
use codex_post_office.Kernel.Documents.Catalogue.{versions_of_interface, interface_family_state}
use codex_post_office.Kernel.Events.Query.{aggregate_root, aggregate_position}
use codex_post_office.Kernel.Authority.Call.{Call}
use codex_post_office.Kernel.Authority.Basis.{Basis, prepare_mutation_authority}
use codex_post_office.Kernel.Authority.Finalize.{Response, finalize_mutation}
use codex_post_office.Kernel.Mutations.Common.{
  package_of, facts, no_link, require_aggregate, require_id,
}

-- The parameter `interface`, but for its identifier.
pub record InterfaceDraft : Type 0 where
  pub version : ℕ
  pub steward_id : ℕ
  pub status : InterfaceStatus
  pub schema_root : Option ℕ
  pub fixture_root : Option ℕ
  pub human_guide : ℕ
  pub provider_ids : List ℕ
  pub consumer_ids : List ℕ

-- The operation with its parameters.
pub data InterfaceOperation : Type 0 where
  register : InterfaceDraft → InterfaceOperation
  deprecate : ℕ → ℕ → Option ℕ → InterfaceOperation

abbrev is_interface : ℕ → ℕ → Interface → Bool
is_interface id version i = i.interface_id == id && i.version == version

abbrev interface_of : Hub → ℕ → ℕ → Option Interface
interface_of h id version = find (is_interface id version) h.interfaces

abbrev pub participant_ids : InterfaceDraft → List ℕ
participant_ids d = d.provider_ids ++ d.consumer_ids ++ d.steward_id ∷ []

abbrev pub participants_known : InterfaceDraft → Hub → Bool
participants_known d h = all (λ id. is_some (package_of h id)) (participant_ids d)

abbrev new_interface : ℕ → InterfaceDraft → Interface
new_interface id d = record {
  interface_id = id;
  version = d.version;
  steward_package_id = d.steward_id;
  status = d.status;
  schema_root = d.schema_root;
  fixture_root = d.fixture_root;
  human_guide = d.human_guide;
  replacement_interface_id = none;
}

-- the rows of `interface_participants` of one kind, each package once
abbrev participant_rows : ℕ → ℕ → Relation → List ℕ → List Participant
participant_rows id version r ids =
    map (λ p. record { interface_id = id; version = version; package_id = p; relation = r })
      (sorted (distinct ids))

module _ (sha256_json : Json → ℕ) where
  abbrev interface_root : ℕ → Json → ℕ
  interface_root id detail = aggregate_root sha256_json "Interface" id detail

  -- The root of the family, which has no state before its first version.
  abbrev family_root : ℕ → Hub → ℕ
  family_root id h =
      interface_root id
        (if length (versions_of_interface h id) == 0 then null else interface_family_state h id)

  unfoldable pub finish_interface :
      Call → Basis → ℕ → ℕ → ℕ → List ℕ → List (String × Json) → Tx Response
  finish_interface c basis id before_root version created event_result = do
    after_root ← reading (λ h. ok (interface_root id (interface_family_state h id)))
    finalize_mutation sha256_json c basis (record {
      before_root = before_root;
      after_root = after_root;
      aggregate_version = version + 1;
      created_ids = created;
      event_result = event_result;
      link = no_link;
    })

  unfoldable pub interface_change : Call → ℕ → ℕ → ℕ → List ℕ → InterfaceOperation → Tx Response
  unfolding finish_interface
  interface_change c id before_root version created (register d) = do
    steward ← row (λ h. package_of h d.steward_id) (raised Code.input_invalid)
    require (λ _. not (is_inactive_package steward.status)) (raised Code.input_invalid)
    require (participants_known d) (raised Code.input_invalid)
    require (λ h. not (is_some (interface_of h id d.version))) (raised Code.concurrency_conflict)
    basis ←
        prepare_mutation_authority c
          (facts (steward.owning_project_id ∷ []) [] (participant_ids d) [])
    modify λ h. record h {
      interfaces = h.interfaces ++ new_interface id d ∷ [];
      participants =
          h.participants
          ++ participant_rows id d.version provider d.provider_ids
          ++ participant_rows id d.version consumer d.consumer_ids;
    }
    finish_interface c basis id before_root version created
        (("state", str (interface_status_text d.status)) ∷ ("version", num d.version) ∷ [])
  interface_change c id before_root version created (deprecate number reason replacement) = do
    target ← row (λ h. interface_of h id number) (raised Code.input_invalid)
    steward ← row (λ h. package_of h target.steward_package_id) (raised Code.internal_error)
    basis ←
        prepare_mutation_authority c
          (facts (steward.owning_project_id ∷ []) [] (steward.package_id ∷ []) [])
    require (λ _. not (is_inactive_interface target.status)) (raised Code.concurrency_conflict)
    modify λ h. record h {
      interfaces =
          update (is_interface id number)
            (λ i. record i {
              status = InterfaceStatus.deprecated;
              replacement_interface_id = replacement;
            })
            h.interfaces;
    }
    finish_interface c basis id before_root version created
        (("state", str "DEPRECATED") ∷ ("version", num number) ∷ ("reason", num reason) ∷ [])

  -- The handler of both operations.
  unfoldable pub interface_mutation : Call → ℕ → InterfaceOperation → Tx Response
  interface_mutation c id op = do
    require_id c.request id
    before_root ← reading (λ h. ok (family_root id h))
    created ← reading λ h. ok (if length (versions_of_interface h id) == 0 then id ∷ [] else [])
    version ← aggregate_position "Interface" id before_root
    require_aggregate c.request "Interface" id version before_root
    interface_change c id before_root version created op
