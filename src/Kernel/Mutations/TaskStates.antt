-- ===== src/Kernel/Mutations/TaskStates.antt =====
-- The states of a task: from which state each operation takes a task, and to which.
use codex_post_office.Base.{◌⊎◌, inl, inr, ℕ, ◌≡◌, sym, true, List, arith}
use codex_post_office.Hub.{TaskState}
use codex_post_office.Kernel.Mutations.Tasks
use codex_post_office.Kernel.Mutations.Tasks.{
  TaskOperation, awaits_binding, activatable, blockable, movable, awaits_response, is_returned,
  is_decided, is_decision,
}
use mathlib.Core.Path.{subst}

-- The lifecycle: `Follows op s s'` where the operation may take a task from state `s` to `s'`.
pub data Follows : TaskOperation → TaskState → TaskState → Type 0 where
  bound_provisioning :
      (e g : ℕ) → Follows (Tasks.bind_endpoint e g) TaskState.provisioning TaskState.ready
  bound_blocked : (e g : ℕ) → Follows (Tasks.bind_endpoint e g) TaskState.blocked TaskState.ready
  activated_ready : Follows Tasks.activate TaskState.ready TaskState.active
  activated_blocked : Follows Tasks.activate TaskState.blocked TaskState.active
  activated_correction_required :
      Follows Tasks.activate TaskState.correction_required TaskState.active
  blocked_provisioning : (r : ℕ) → Follows (Tasks.block r) TaskState.provisioning TaskState.blocked
  blocked_ready : (r : ℕ) → Follows (Tasks.block r) TaskState.ready TaskState.blocked
  blocked_active : (r : ℕ) → Follows (Tasks.block r) TaskState.active TaskState.blocked
  blocked_correction_required :
      (r : ℕ) → Follows (Tasks.block r) TaskState.correction_required TaskState.blocked
  returned_active :
      (m : ℕ) (es : List ℕ)
      → Follows (Tasks.record_response m es) TaskState.active TaskState.response_returned
  returned_blocked :
      (m : ℕ) (es : List ℕ)
      → Follows (Tasks.record_response m es) TaskState.blocked TaskState.response_returned
  closed_accepted : (n : ℕ) → Follows (Tasks.close n) TaskState.accepted TaskState.closed
  closed_rejected : (n : ℕ) → Follows (Tasks.close n) TaskState.rejected TaskState.closed
  closed_cancelled : (n : ℕ) → Follows (Tasks.close n) TaskState.cancelled TaskState.closed
  reviewed_accepted :
      (r : ℕ)
      → Follows (Tasks.review TaskState.accepted r) TaskState.response_returned TaskState.accepted
  reviewed_correction_required :
      (r : ℕ)
      → Follows
          (Tasks.review TaskState.correction_required r)
          TaskState.response_returned
          TaskState.correction_required
  reviewed_rejected :
      (r : ℕ)
      → Follows (Tasks.review TaskState.rejected r) TaskState.response_returned TaskState.rejected
  moved_provisioning :
      (p r : ℕ) → Follows (Tasks.move_project p r) TaskState.provisioning TaskState.provisioning
  moved_ready : (p r : ℕ) → Follows (Tasks.move_project p r) TaskState.ready TaskState.ready
  moved_blocked : (p r : ℕ) → Follows (Tasks.move_project p r) TaskState.blocked TaskState.blocked

-- A state at which the test holds is one of those that have an entry.
bound-from :
    (s : TaskState)
    → awaits_binding s ≡ true
    → (s ≡ TaskState.provisioning) ⊎ (s ≡ TaskState.blocked)
bound-from s h = ground (arith, h)

pub bound-Follows :
    (e g : ℕ) (s : TaskState)
    → awaits_binding s ≡ true
    → Follows (Tasks.bind_endpoint e g) s TaskState.ready
bound-Follows e g s h = elim (bound-from s h) [
  | inl e1 ↦
      subst (λ t. Follows (Tasks.bind_endpoint e g) t TaskState.ready) (sym e1)
        (bound_provisioning e g)
  | inr r1 ↦
      subst (λ t. Follows (Tasks.bind_endpoint e g) t TaskState.ready) (sym r1) (bound_blocked e g)
]

activated-from :
    (s : TaskState)
    → activatable s ≡ true
    → (s ≡ TaskState.ready) ⊎ ((s ≡ TaskState.blocked) ⊎ (s ≡ TaskState.correction_required))
activated-from s h = ground (arith, h)

pub activated-Follows :
    (s : TaskState) → activatable s ≡ true → Follows Tasks.activate s TaskState.active
activated-Follows s h = elim (activated-from s h) [
  | inl e1 ↦ subst (λ t. Follows Tasks.activate t TaskState.active) (sym e1) activated_ready
  | inr r1 ↦ elim r1 [
    | inl e2 ↦ subst (λ t. Follows Tasks.activate t TaskState.active) (sym e2) activated_blocked
    | inr r2 ↦
        subst (λ t. Follows Tasks.activate t TaskState.active) (sym r2)
          activated_correction_required
  ]
]

blocked-from :
    (s : TaskState)
    → blockable s ≡ true
    → (s ≡ TaskState.provisioning)
      ⊎ ((s ≡ TaskState.ready) ⊎ ((s ≡ TaskState.active) ⊎ (s ≡ TaskState.correction_required)))
blocked-from s h = ground (arith, h)

pub blocked-Follows :
    (r : ℕ) (s : TaskState) → blockable s ≡ true → Follows (Tasks.block r) s TaskState.blocked
blocked-Follows r s h = elim (blocked-from s h) [
  | inl e1 ↦
      subst (λ t. Follows (Tasks.block r) t TaskState.blocked) (sym e1) (blocked_provisioning r)
  | inr r1 ↦ elim r1 [
    | inl e2 ↦ subst (λ t. Follows (Tasks.block r) t TaskState.blocked) (sym e2) (blocked_ready r)
    | inr r2 ↦ elim r2 [
      | inl e3 ↦
          subst (λ t. Follows (Tasks.block r) t TaskState.blocked) (sym e3) (blocked_active r)
      | inr r3 ↦
          subst (λ t. Follows (Tasks.block r) t TaskState.blocked) (sym r3)
            (blocked_correction_required r)
    ]
  ]
]

returned-from :
    (s : TaskState) → awaits_response s ≡ true → (s ≡ TaskState.active) ⊎ (s ≡ TaskState.blocked)
returned-from s h = ground (arith, h)

pub returned-Follows :
    (m : ℕ) (es : List ℕ) (s : TaskState)
    → awaits_response s ≡ true
    → Follows (Tasks.record_response m es) s TaskState.response_returned
returned-Follows m es s h = elim (returned-from s h) [
  | inl e1 ↦
      subst (λ t. Follows (Tasks.record_response m es) t TaskState.response_returned) (sym e1)
        (returned_active m es)
  | inr r1 ↦
      subst (λ t. Follows (Tasks.record_response m es) t TaskState.response_returned) (sym r1)
        (returned_blocked m es)
]

closed-from :
    (s : TaskState)
    → is_decided s ≡ true
    → (s ≡ TaskState.accepted) ⊎ ((s ≡ TaskState.rejected) ⊎ (s ≡ TaskState.cancelled))
closed-from s h = ground (arith, h)

pub closed-Follows :
    (n : ℕ) (s : TaskState) → is_decided s ≡ true → Follows (Tasks.close n) s TaskState.closed
closed-Follows n s h = elim (closed-from s h) [
  | inl e1 ↦ subst (λ t. Follows (Tasks.close n) t TaskState.closed) (sym e1) (closed_accepted n)
  | inr r1 ↦ elim r1 [
    | inl e2 ↦ subst (λ t. Follows (Tasks.close n) t TaskState.closed) (sym e2) (closed_rejected n)
    | inr r2 ↦ subst (λ t. Follows (Tasks.close n) t TaskState.closed) (sym r2) (closed_cancelled n)
  ]
]

moved-from :
    (s : TaskState)
    → movable s ≡ true
    → (s ≡ TaskState.provisioning) ⊎ ((s ≡ TaskState.ready) ⊎ (s ≡ TaskState.blocked))
moved-from s h = ground (arith, h)

pub moved-Follows :
    (p r : ℕ) (s : TaskState) → movable s ≡ true → Follows (Tasks.move_project p r) s s
moved-Follows p r s h = elim (moved-from s h) [
  | inl e1 ↦ subst (λ t. Follows (Tasks.move_project p r) t t) (sym e1) (moved_provisioning p r)
  | inr r1 ↦ elim r1 [
    | inl e2 ↦ subst (λ t. Follows (Tasks.move_project p r) t t) (sym e2) (moved_ready p r)
    | inr r2 ↦ subst (λ t. Follows (Tasks.move_project p r) t t) (sym r2) (moved_blocked p r)
  ]
]

decided-from :
    (d : TaskState)
    → is_decision d ≡ true
    → (d ≡ TaskState.accepted) ⊎ ((d ≡ TaskState.correction_required) ⊎ (d ≡ TaskState.rejected))
decided-from d h = ground (arith, h)

decided-Follows :
    (r : ℕ) (d : TaskState)
    → is_decision d ≡ true
    → Follows (Tasks.review d r) TaskState.response_returned d
decided-Follows r d h = elim (decided-from d h) [
  | inl e1 ↦
      subst (λ t. Follows (Tasks.review t r) TaskState.response_returned t) (sym e1)
        (reviewed_accepted r)
  | inr r1 ↦ elim r1 [
    | inl e2 ↦
        subst (λ t. Follows (Tasks.review t r) TaskState.response_returned t) (sym e2)
          (reviewed_correction_required r)
    | inr e3 ↦
        subst (λ t. Follows (Tasks.review t r) TaskState.response_returned t) (sym e3)
          (reviewed_rejected r)
  ]
]

returned-only : (s : TaskState) → is_returned s ≡ true → s ≡ TaskState.response_returned
returned-only s h = ground (arith, h)

pub reviewed-Follows :
    (r : ℕ) (s d : TaskState)
    → is_returned s ≡ true
    → is_decision d ≡ true
    → Follows (Tasks.review d r) s d
reviewed-Follows r s d h e =
    subst (λ t. Follows (Tasks.review d r) t d) (sym (returned-only s h)) (decided-Follows r d e)
