-- ===== src/Kernel/Mutations/Custody.antt =====
-- The rows that message.register adds, the plan that they come from, and the custody of the bundle.
use codex_post_office.Base.{◌≡◌, List, [], ◌∷◌, ◌++◌}
use codex_post_office.Hub.{Hub, MessageDraft, BundleDraft}
use codex_post_office.Kernel.Moves.{Moves}
use codex_post_office.Kernel.Authority.Basis.{Basis}
use codex_post_office.Kernel.Authority.Call.{Call}
use codex_post_office.Kernel.Authority.Untouched.{Untouched}
use codex_post_office.Kernel.Mutations.Messages
use codex_post_office.Kernel.Mutations.Messages.{is_plan_for}
use codex_post_office.Kernel.Mutations.Planned.{Content, planned_content, Parcel, parcel_for}

abbrev Contents : Type 0
Contents = List Content × List Parcel

-- The row of the draft, that of the bundle, and both are added.
abbrev AddsMessage : MessageDraft → Contents → Contents → Type 0
AddsMessage m (xs, ys) (xs', ys') = (xs' ≡ xs ++ planned_content m ∷ []) × (ys' ≡ ys)

abbrev AddsBundle : MessageDraft → BundleDraft → Contents → Contents → Type 0
AddsBundle m b (xs, ys) (xs', ys') = (xs' ≡ xs) × (ys' ≡ ys ++ parcel_for m.message_id b ∷ [])

abbrev Adds : MessageDraft → BundleDraft → Contents → Contents → Type 0
Adds m b (xs, ys) (xs', ys') =
    (xs' ≡ xs ++ planned_content m ∷ []) × (ys' ≡ ys ++ parcel_for m.message_id b ∷ [])
