-- ===== src/Kernel/Mutations/Planned.antt =====
-- What it means that a message is registered as planned, and the tests of message.register.
use codex_post_office.Base.{
  ℕ, ◌≡◌, refl, sym, true, some, List, [], ◌∷◌, ◌++◌, map, find, any, ◌==◌, ◌&&◌, ◌⊎◌, inl, inr,
  arith, distinct, same_list, Bool-cases,
}
use codex_post_office.Hub.{
  Hub, Message, MessageDraft, MessagePlan, MessagePlanState, Bundle, BundleDraft, BundlePayload,
  StorageCopy, LocationKind, local_cas, database_blob,
}
use codex_post_office.Kernel.Documents.{sorted}
use codex_post_office.Kernel.Mutations.MessagePlans.{is_planned}
use codex_post_office.Kernel.Mutations.Messages.{is_plan_for}
use codex_post_office.Kernel.Mutations.Registration.{same_draft, is_custody}
use mathlib.Core.Path.{subst}

-- the columns of a message that its plan fixes
pub record Content : Type 0 where
  pub message_id : ℕ
  pub mail_domain : ℕ
  pub message_type : ℕ
  pub sender_endpoint_id : ℕ
  pub recipient_mailbox_id : ℕ
  pub recipient_generation : ℕ
  pub related_message_ids : List ℕ
  pub requested_action : ℕ
  pub completion_criteria : ℕ
  pub content_root : ℕ
  pub semantic_cycle_id : ℕ

abbrev pub content_of : Message → Content
content_of m = record {
  message_id = m.message_id;
  mail_domain = m.mail_domain;
  message_type = m.message_type;
  sender_endpoint_id = m.sender_endpoint_id;
  recipient_mailbox_id = m.recipient_mailbox_id;
  recipient_generation = m.recipient_generation;
  related_message_ids = m.related_message_ids;
  requested_action = m.requested_action;
  completion_criteria = m.completion_criteria;
  content_root = m.content_root;
  semantic_cycle_id = m.semantic_cycle_id;
}

-- the columns that a planned message stands for
abbrev pub planned_content : MessageDraft → Content
planned_content m = record {
  message_id = m.message_id;
  mail_domain = m.mail_domain;
  message_type = m.message_type;
  sender_endpoint_id = m.sender_endpoint_id;
  recipient_mailbox_id = m.recipient_mailbox_id;
  recipient_generation = m.recipient_generation;
  related_message_ids = sorted (distinct m.related_message_ids);
  requested_action = m.requested_action;
  completion_criteria = m.completion_criteria;
  content_root = m.content_root;
  semantic_cycle_id = m.semantic_cycle_id;
}

-- a bundle as its identity, the message that it belongs to, its file, its digests and its payloads
abbrev pub Parcel : Type 0
Parcel = ℕ × ℕ × ℕ × ℕ × ℕ × ℕ × ℕ × List BundlePayload

abbrev pub parcel_of : Bundle → Parcel
parcel_of b = (
  b.bundle_id, b.message_id, b.canonical_filename, b.bundle_version, b.size_bytes, b.sha256,
  b.manifest_root, b.payloads,
)

abbrev pub parcel_for : ℕ → BundleDraft → Parcel
parcel_for message b = (
  b.bundle_id, message, b.canonical_filename, b.bundle_version, b.size_bytes, b.sha256,
  b.manifest_root, b.payloads,
)

abbrev pub planned_parcel : MessagePlan → Parcel
planned_parcel p = parcel_for p.semantic_message.message_id p.bundle

abbrev pub contents : Hub → List Content × List Parcel
contents h = (map content_of h.messages, map parcel_of h.bundles)

-- The hub has an open plan for the message and the bundle.
pub data IsPlanned : ℕ → ℕ → MessagePlan → List MessagePlan → Type 0 where
  here :
      {m b : ℕ} {p : MessagePlan} (ps : List MessagePlan)
      → p.message_id ≡ m
      → p.bundle_id ≡ b
      → p.state ≡ MessagePlanState.planned
      → IsPlanned m b p (p ∷ ps)
  there :
      {m b : ℕ} {p : MessagePlan} (q : MessagePlan) (ps : List MessagePlan)
      → IsPlanned m b p ps
      → IsPlanned m b p (q ∷ ps)

-- A verified copy of the content is in the content store, or in the database.
pub data InCustody : ℕ → List StorageCopy → Type 0 where
  in_cas :
      {n : ℕ} (s : StorageCopy) (ss : List StorageCopy)
      → s.content_sha256 ≡ n
      → s.location_kind ≡ local_cas
      → InCustody n (s ∷ ss)
  in_database :
      {n : ℕ} (s : StorageCopy) (ss : List StorageCopy)
      → s.content_sha256 ≡ n
      → s.location_kind ≡ database_blob
      → InCustody n (s ∷ ss)
  later : {n : ℕ} (s : StorageCopy) (ss : List StorageCopy) → InCustody n ss → InCustody n (s ∷ ss)

-- The one row that is added to the messages and the one that is added to the bundles are those of an
-- open plan, whose bundle is in custody.
abbrev pub RegisteredAsPlanned : ℕ → ℕ → Hub → Hub → Type 0
RegisteredAsPlanned message bundle h g =
    (p : MessagePlan) × IsPlanned message bundle p h.message_plans
    × InCustody p.bundle.sha256 h.copies
    × (map content_of g.messages
        ≡ map content_of h.messages ++ planned_content p.semantic_message ∷ [])
    × (map parcel_of g.bundles ≡ map parcel_of h.bundles ++ planned_parcel p ∷ [])

planned-only : (s : MessagePlanState) → is_planned s ≡ true → s ≡ MessagePlanState.planned
planned-only s e = ground (arith, e)

custody-kind : (k : LocationKind) → is_custody k ≡ true → (k ≡ local_cas) ⊎ (k ≡ database_blob)
custody-kind k e = ground (arith, e)

pub find-IsPlanned :
    (m b : ℕ) (ps : List MessagePlan) (p : MessagePlan)
    → find (is_plan_for m b) ps ≡ some p
    → IsPlanned m b p ps
find-IsPlanned m b [] p e = absurd (ground arith)
find-IsPlanned m b (q ∷ ps) p e = elim (Bool-cases (is_plan_for m b q)) [
  | inl mine ↦
      let same : q ≡ p = ground (arith, mine, e) in
      subst (λ o. IsPlanned m b o (q ∷ ps)) same
        (here ps (ground (arith, mine)) (ground (arith, mine))
          (planned-only q.state (ground (arith, mine))))
  | inr other ↦ there q ps (find-IsPlanned m b ps p (ground (arith, other)))
]

pub custody-InCustody :
    (n : ℕ) (ss : List StorageCopy)
    → any (λ (s : StorageCopy). s.content_sha256 == n && is_custody s.location_kind) ss ≡ true
    → InCustody n ss
custody-InCustody n [] e = absurd (ground arith)
custody-InCustody n (s ∷ ss) e =
    elim (Bool-cases (s.content_sha256 == n && is_custody s.location_kind)) [
      | inl this ↦
          let holds : s.content_sha256 ≡ n = ground (arith, this) in
          elim (custody-kind s.location_kind (ground (arith, this))) [
            | inl k ↦ in_cas s ss holds k
            | inr k ↦ in_database s ss holds k
          ]
      | inr other ↦ later s ss (custody-InCustody n ss (ground (arith, e, other)))
    ]

same_list-eq : (xs ys : List ℕ) → same_list xs ys ≡ true → xs ≡ ys
same_list-eq [] [] e = refl
same_list-eq [] (y ∷ ys) e = absurd (ground arith)
same_list-eq (x ∷ xs) [] e = absurd (ground arith)
same_list-eq (x ∷ xs) (y ∷ ys) e =
    let heads : x ≡ y = ground (arith, e) in
    let tails : xs ≡ ys = same_list-eq xs ys (ground (arith, e)) in rw (heads, tails) refl

pub same_draft-content :
    (m n : MessageDraft) → same_draft m n ≡ true → planned_content n ≡ planned_content m
unfolding same_draft
same_draft-content m n e =
    let e0 : n.message_id ≡ m.message_id = ground (arith, e) in
    let e1 : n.mail_domain ≡ m.mail_domain = ground (arith, e) in
    let e2 : n.message_type ≡ m.message_type = ground (arith, e) in
    let e3 : n.sender_endpoint_id ≡ m.sender_endpoint_id = ground (arith, e) in
    let e4 : n.recipient_mailbox_id ≡ m.recipient_mailbox_id = ground (arith, e) in
    let e5 : n.recipient_generation ≡ m.recipient_generation = ground (arith, e) in
    let e6 : n.requested_action ≡ m.requested_action = ground (arith, e) in
    let e7 : n.completion_criteria ≡ m.completion_criteria = ground (arith, e) in
    let e8 : n.content_root ≡ m.content_root = ground (arith, e) in
    let e9 : n.semantic_cycle_id ≡ m.semantic_cycle_id = ground (arith, e) in
    let related : n.related_message_ids ≡ m.related_message_ids =
      sym (same_list-eq m.related_message_ids n.related_message_ids (ground (arith, e))) in
    rw (e0, e1, e2, e3, e4, e5, e6, e7, e8, e9, related) refl
