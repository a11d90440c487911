-- ===== src/Kernel/Mutations/Orderly/Transport.antt =====
-- The handler of transport attempts is orderly. It reads the positions of the attempt and of its
-- message before it records the attempt's event, and records the message's event after it.
use codex_post_office.Base.{
  ℕ, ◌≡◌, refl, ◌∙◌, inl, inr, Option, none, some, Json, ok, Bool-cases, ◌==◌, is_some,
}
use codex_post_office.Hub.{Hub, Attempt, Dispatch, Message, Grant}
use codex_post_office.Kernel.Transaction.{Tx, ◌>>=◌}
use codex_post_office.Kernel.Documents.{message_state}
use codex_post_office.Kernel.Events.Query.{aggregate_position, position_of}
use codex_post_office.Kernel.Events.Append.{new_event}
use codex_post_office.Kernel.Events.Growth.{IsHistory}
use codex_post_office.Kernel.Authority.Call.{Call}
use codex_post_office.Kernel.Authority.Basis.{Basis, exact_author_action, authority_grant}
use codex_post_office.Kernel.Authority.Authorised.{
  whole, Unauthorised, prepare_mutation_authority-Unauthorised,
}
use codex_post_office.Kernel.Authority.Actions.{
  actions_of, IsConsumed, prepare_mutation_authority-Gives, finalize_mutation-Ends,
}
use codex_post_office.Kernel.Authority.Finalize.{
  Finish, consume_uses, consume_retained, consume_grant_authority, consume_action, main_entry,
  finalize_mutation,
}
use codex_post_office.Kernel.Grows.{
  >>=-ok, Quiet, Quiet-pure, Quiet-raise, Quiet-reading, Quiet-modify, Quiet-bind, GrowsAt,
  GrowsAt-Grows, Grows-Quiet, GrowsAt-bind, GrowsAt-bind-Quiet, GrowsAt-append, reading-ok,
}
use codex_post_office.Kernel.Spending.{finalize_mutation-GrowsAt}
use codex_post_office.Kernel.Steps.{
  Keeps, Keeps-pure, Keeps-reading, Keeps-modify, Keeps-bind, Ends, Ends-bind, Ends-then,
  Ends-Gives, Blocked, Blocked-here, Blocked-later,
}
use codex_post_office.Kernel.Mutations.QuietSteps.{Quiet-prepare_authority}
use codex_post_office.Kernel.Mutations.Judgements.{
  Orderly, OrderlyAt, Orderly-Still, OrderlyAt-Still, Orderly-gate, IsStill-reading, Keeps-append,
  Still, Still-Quiet, Still-bind, Still-append,
}
use codex_post_office.Kernel.Mutations.Orderly.Mail.{Quiet-insert_attempt}
use codex_post_office.Kernel.Mutations.Messages.{message_root}
use codex_post_office.Kernel.Mutations.Transports
use codex_post_office.Kernel.Mutations.Transports.{
  TransportOperation, set_dispatch, transport_change, record_message, transport_operation,
  transport_mutation,
}

set_dispatch-events :
    (d : Option Dispatch) (change : Dispatch → Dispatch) (h : Hub)
    → (set_dispatch d change h).events ≡ h.events
set_dispatch-events none change h = refl
set_dispatch-events (some d) change h = refl

Quiet-transport_change :
    (c : Call) (t : Attempt) (d : Option Dispatch) (op : TransportOperation)
    → Quiet (transport_change c t d op)
unfolding transport_change
Quiet-transport_change c t d Transports.retry = Quiet-bind _ _ (Quiet-reading _) λ _.
    Quiet-bind _ _ (Quiet-reading _) λ _. Quiet-bind _ _ (Quiet-insert_attempt _) λ _.
      Quiet-bind _ _ (Quiet-modify _ (set_dispatch-events d _))
        λ _. Quiet-bind _ _ (Quiet-modify _ (λ h. refl)) λ _. Quiet-pure _
Quiet-transport_change c t d (Transports.quarantine reason) = Quiet-bind _ _ (Quiet-reading _) λ _.
    Quiet-bind _ _ (Quiet-modify _ (λ h. refl)) λ _.
      Quiet-bind _ _ (Quiet-modify _ (set_dispatch-events d _))
        λ _. Quiet-bind _ _ (Quiet-modify _ (λ h. refl)) λ _. Quiet-pure _
Quiet-transport_change c t d (Transports.tombstone_duplicate id) =
    Quiet-bind _ _ (Quiet-reading _) λ _. Quiet-bind _ _ (Quiet-reading _) λ _.
      Quiet-bind _ _ (Quiet-reading _) λ _. Quiet-bind _ _ (Quiet-reading _) λ _.
        Quiet-bind _ _ (Quiet-modify _ (λ h. refl))
          λ _. Quiet-bind _ _ (Quiet-modify _ (set_dispatch-events d _)) λ _. Quiet-pure _

-- The end of a mutation of a transport attempt leaves every message where it stood.
module _ (sha256_json : Json → ℕ) (id : ℕ) where
  abbrev StillMessage : {A : Type 0} → Tx A → Type 0
  StillMessage m = Still sha256_json "SemanticMessage" id m

  consume_uses-Still :
      (c : Call) (grant : ℕ) (g : Grant) (uses : ℕ)
      → StillMessage (consume_uses sha256_json c grant g uses)
  unfolding consume_uses new_event
  consume_uses-Still c grant g uses =
      Still-bind _ _ _ _ _ (Still-Quiet _ _ _ _ (Quiet-reading _)) λ v.
        Still-bind _ _ _ _ _ (Still-Quiet _ _ _ _ (Quiet-reading _)) λ _.
          Still-bind _ _ _ _ _ (Still-Quiet _ _ _ _ (Quiet-modify _ (λ h. refl))) λ _.
            Still-bind _ _ _ _ _ (Still-Quiet _ _ _ _ (Quiet-reading _)) λ _.
              Still-bind _ _ _ _ _ (Still-append _ _ _ _ (λ h. refl))
                λ _. Still-Quiet _ _ _ _ (Quiet-pure _)

  consume_retained-Still :
      (c : Call) (grant : ℕ) (g : Grant) (uses : Option ℕ)
      → StillMessage (consume_retained sha256_json c grant g uses)
  unfolding consume_retained
  consume_retained-Still c grant g none = Still-Quiet _ _ _ _ (Quiet-raise _)
  consume_retained-Still c grant g (some uses) = consume_uses-Still c grant g uses

  consume_grant_authority-Still :
      (c : Call) (basis : Basis) → StillMessage (consume_grant_authority sha256_json c basis)
  unfolding consume_grant_authority
  consume_grant_authority-Still c (exact_author_action a) = Still-Quiet _ _ _ _ (Quiet-pure _)
  consume_grant_authority-Still c (authority_grant grant g) =
      elim (Bool-cases (is_some g.remaining_uses)) [
        | inl limited ↦ rw limited (
            Still-bind _ _ _ _ _ (Still-Quiet _ _ _ _ (Quiet-reading _))
              λ r. consume_retained-Still c grant r r.remaining_uses)
        | inr free ↦ rw free (Still-Quiet _ _ _ _ (Quiet-pure _))
      ]

  Quiet-consume_action : (basis : Basis) (event : ℕ) → Quiet (consume_action basis event)
  unfolding consume_action
  Quiet-consume_action (authority_grant a o) event = Quiet-pure _
  Quiet-consume_action (exact_author_action a) event =
      Quiet-bind _ _ (Quiet-reading _) λ _. Quiet-modify _ (λ h. refl)

  finalize_mutation-Still :
      (c : Call) (basis : Basis) (f : Finish)
      → c.request.aggregate_type ≡ "TransportAttempt"
      → ((e : ℕ) (h : Hub) → (f.link e h).events ≡ h.events)
      → StillMessage (finalize_mutation sha256_json c basis f)
  unfolding finalize_mutation main_entry new_event
  finalize_mutation-Still c basis f named link =
      Still-bind _ _ _ _ _ (consume_grant_authority-Still c basis) λ used.
        Still-bind _ _ _ _ _ (Still-append _ _ _ _ (λ h. rw named refl)) λ event.
          Still-bind _ _ _ _ _ (Still-Quiet _ _ _ _ (Quiet-consume_action basis event)) λ _.
            Still-bind _ _ _ _ _ (Still-Quiet _ _ _ _ (Quiet-modify _ (link event)))
              λ _. Still-Quiet _ _ _ _ (Quiet-pure _)

module _ (sha256_json : Json → ℕ) (c : Call) (id root v message before message_version : ℕ) where
  -- A step that keeps the log verified if the attempt and the message stand where they were read.
  record GrowsBoth {A : Type 0} (m : Tx A) : Type 0 where
    at :
        (h : Hub) (a : A) (g : Hub)
        → IsHistory sha256_json h.events
        → position_of "TransportAttempt" id root h.events ≡ ok v
        → position_of "SemanticMessage" message before h.events ≡ ok message_version
        → m h ≡ ok (a, g)
        → IsHistory sha256_json g.events

  GrowsBoth-Quiet :
      {A B : Type 0} (m : Tx A) (f : A → Tx B)
      → Quiet m
      → ((a : A) → GrowsBoth (f a))
      → GrowsBoth (m >>= f)
  GrowsBoth-Quiet m f qm gf = record {
    at = λ h b k history stood stood' e.
        let (a, g, p, q) = >>=-ok m f h e in
        let same = qm.at h a g p in
        (gf a).at g b k (rw same history) (rw same stood) (rw same stood') q;
  }

  -- First the attempt's event, then what may carry the message on.
  GrowsBoth-then :
      {A B : Type 0} (m : Tx A) (f : A → Tx B)
      → GrowsAt sha256_json "TransportAttempt" id root v m
      → Still sha256_json "SemanticMessage" message m
      → ((a : A) → GrowsAt sha256_json "SemanticMessage" message before message_version (f a))
      → GrowsBoth (m >>= f)
  GrowsBoth-then m f gm sm gf = record {
    at = λ h b k history stood stood' e.
        let (a, g, p, q) = >>=-ok m f h e in
        (gf a).at g b k (gm.at h a g history stood p) (sm.at h a g p before ∙ stood') q;
  }

  record_message-GrowsAt :
      (event : ℕ)
      → GrowsAt sha256_json "SemanticMessage" message before message_version
          (record_message sha256_json c id message before message_version event)
  unfolding record_message
  record_message-GrowsAt event = GrowsAt-bind-Quiet _ _ _ _ _ _ _ (Quiet-reading _) λ m.
      elim (Bool-cases (message_root sha256_json message (message_state m) == before)) [
        | inl same ↦ rw same (GrowsAt-Grows _ _ _ _ _ _ (Grows-Quiet _ _ (Quiet-pure _)))
        | inr changed ↦ rw changed (
            GrowsAt-bind-Quiet _ _ _ _ _ _ _ (Quiet-modify _ (λ h. refl)) λ _.
              GrowsAt-bind _ _ _ _ _ _ _ (GrowsAt-append _ _ message_version refl)
                λ _. Grows-Quiet _ _ (Quiet-pure _))
      ]

  Keeps-record_message :
      (event : ℕ)
      → Keeps actions_of (record_message sha256_json c id message before message_version event)
  unfolding record_message
  Keeps-record_message event = Keeps-bind _ _ _ (Keeps-reading _ _) λ m.
      elim (Bool-cases (message_root sha256_json message (message_state m) == before)) [
        | inl same ↦ rw same (Keeps-pure _ _)
        | inr changed ↦ rw changed (
            Keeps-bind _ _ _ (Keeps-modify _ _ (λ h. refl))
              λ _. Keeps-bind _ _ _ (Keeps-append _ _) λ _. Keeps-pure _ _)
      ]

module _ (sha256_json : Json → ℕ) (c : Call) (id : ℕ) (t : Attempt) (d : Option Dispatch)
    (op : TransportOperation) (m : Message) (root before v : ℕ) where
  transport_operation-GrowsBoth :
      (w : ℕ)
      → c.request.aggregate_type ≡ "TransportAttempt"
      → c.request.aggregate_id ≡ id
      → GrowsBoth sha256_json c id root v m.message_id before w
          (transport_operation sha256_json c id root v t d m before w op)
  unfolding transport_operation
  transport_operation-GrowsBoth w k i =
      GrowsBoth-Quiet _ _ _ _ _ _ _ _ _ _ (Quiet-prepare_authority _ _) λ basis.
        GrowsBoth-Quiet _ _ _ _ _ _ _ _ _ _ (Quiet-transport_change c t d op) λ r.
          GrowsBoth-Quiet _ _ _ _ _ _ _ _ _ _ (Quiet-reading _) λ _.
            GrowsBoth-Quiet _ _ _ _ _ _ _ _ _ _ (Quiet-reading _) λ _.
              GrowsBoth-then _ _ _ _ _ _ _ _ _ _
                (finalize_mutation-GrowsAt sha256_json c basis _ (λ e h. refl) v _ _ _ refl k i
                  refl)
                (finalize_mutation-Still sha256_json m.message_id c basis _ k (λ e h. refl))
                λ response.
                  GrowsAt-bind _ _ _ _ _ _ _
                    (record_message-GrowsAt sha256_json c id root v m.message_id before w _)
                    λ _. Grows-Quiet _ _ (Quiet-pure _)

  transport_operation-Ends :
      (w action : ℕ)
      → c.request.exact_author_action_id ≡ some action
      → Ends actions_of
          (IsConsumed action)
          (transport_operation sha256_json c id root v t d m before w op)
  unfolding transport_operation
  transport_operation-Ends w action named =
      Ends-Gives _ _ _ _ _ (prepare_mutation_authority-Gives c _ action named) λ basis same.
        Ends-bind _ _ _ _ λ r. Ends-bind _ _ _ _ λ _. Ends-bind _ _ _ _ λ _.
          Ends-then _ _ _ _ (finalize_mutation-Ends sha256_json c basis _ action same (λ e h. refl))
            λ response.
              Keeps-bind _ _ _
                (Keeps-record_message sha256_json c id root v m.message_id before w _)
                λ _. Keeps-pure _ _

  transport_operation-Blocked :
      (w : ℕ)
      → Blocked whole
          (Unauthorised c)
          (transport_operation sha256_json c id root v t d m before w op)
  unfolding transport_operation
  transport_operation-Blocked w = Blocked-here _ _ _ _ (prepare_mutation_authority-Unauthorised c _)

  transport_operation-OrderlyAt : OrderlyAt sha256_json c "TransportAttempt" id root v (
      aggregate_position "SemanticMessage" m.message_id before >>= λ w.
      transport_operation sha256_json c id root v t d m before w op)
  transport_operation-OrderlyAt = record {
    grows = λ k i. record {
      at = λ h b g history stood e.
          let (w, h', p, q) =
            >>=-ok (aggregate_position "SemanticMessage" m.message_id before) _ h e in
          let (r, same) =
            reading-ok (λ o. position_of "SemanticMessage" m.message_id before o.events) h p in
          (transport_operation-GrowsBoth w k i).at h' b g (rw same history) (rw same stood)
            (rw same r) q;
    };
    ends = λ action named. Ends-bind _ _ _ _ λ w. transport_operation-Ends w action named;
    blocked = Blocked-later _ _ _ _ (Keeps-reading _ _) transport_operation-Blocked;
  }

pub transport_mutation-Orderly :
    (sha256_json : Json → ℕ) (c : Call) (id : ℕ) (op : TransportOperation)
    → Orderly sha256_json c (transport_mutation sha256_json c id op)
unfolding transport_mutation
transport_mutation-Orderly sha256_json c id op = Orderly-Still _ _ _ _ (IsStill-reading _) λ _.
    Orderly-Still _ _ _ _ (IsStill-reading _) λ t. Orderly-Still _ _ _ _ (IsStill-reading _) λ d.
      Orderly-gate _ _ _ _ _ _ _ λ v.
        OrderlyAt-Still _ _ _ _ _ _ _ _ (IsStill-reading _)
          λ m. transport_operation-OrderlyAt sha256_json c id t d op m _ _ v
