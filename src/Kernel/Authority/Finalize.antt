-- ===== src/Kernel/Authority/Finalize.antt =====
-- `_consume_grant_authority` and `_finalize_mutation`: the end of every mutation, which spends the
-- authority and records the event.
use codex_post_office.Base.{
  ℕ, ◌+◌, ◌-◌, String, Bool, not, ◌&&◌, Option, none, some, List, [], ◌∷◌, ◌++◌, Json, num, str,
  fields, raised, Code, any, update, ltb, integrity_error, ◌==◌, if◌then◌else◌, is_some,
}
use codex_post_office.Hub.{Hub, AuthorAction, Grant, GrantStatus}
use codex_post_office.Kernel.Transaction.{Tx, pure, raise, row, require, modify, ◌>>=◌, ◌>>◌}
use codex_post_office.Kernel.Documents.{grant_state}
use codex_post_office.Kernel.Events.Query.{aggregate_root, aggregate_position}
use codex_post_office.Kernel.Events.Append.{Entry, append_hub_event}
use codex_post_office.Kernel.Authority.Call.{Call}
use codex_post_office.Kernel.Authority.Basis.{Basis, exact_author_action, authority_grant, grant_of}

-- The draws of `fresh` that a mutation makes here; a handler's own draws begin at 3.
abbrev pub use_draw : ℕ
use_draw = 0

abbrev pub event_draw : ℕ
event_draw = 1

abbrev pub receipt_draw : ℕ
receipt_draw = 2

-- One use less; the last one exhausts the grant.
abbrev pub spent : Grant → ℕ → Grant
spent g uses =
    let remaining = uses - 1 in
    record g {
      remaining_uses = some remaining;
      status = if remaining == 0 then GrantStatus.exhausted else GrantStatus.active;
    }

abbrev pub is_grant : ℕ → Grant → Bool
is_grant id g = g.grant_id == id

-- What a handler passes to `_finalize_mutation`; `link` is the update that `event_link` stands for.
pub record Finish : Type 0 where
  pub before_root : ℕ
  pub after_root : ℕ
  pub aggregate_version : ℕ
  pub created_ids : List ℕ
  pub event_result : List (String × Json)
  pub link : ℕ → Hub → Hub

-- The result of a mutation: what the caller gets of it, but for the detail document and the
-- digest of the whole database.
pub record Response : Type 0 where
  pub before_root : ℕ
  pub after_root : ℕ
  pub aggregate_version : ℕ
  pub created_ids : List ℕ
  pub event_id : ℕ
  pub receipt_id : ℕ
  pub request_sha256 : ℕ

abbrev pub is_pending_action : ℕ → AuthorAction → Bool
is_pending_action id a = a.action_id == id && not (is_some a.consumed_event_id)

-- the UPDATE that consumes the action, which must change a row
unfoldable pub consume_action : Basis → ℕ → Tx (Unit {0})
consume_action (authority_grant _ _) event_id = pure tt
consume_action (exact_author_action id) event_id = do
  require (λ h. any (is_pending_action id) h.actions) (raised Code.authorization_denied)
  modify λ h. record h {
    actions =
        update (is_pending_action id) (λ a. record a { consumed_event_id = some event_id })
          h.actions;
  }

module _ (sha256_json : Json → ℕ) where
  unfoldable pub consume_uses : Call → ℕ → Grant → ℕ → Tx (Option ℕ)
  consume_uses c id g uses = do
    let before_root = aggregate_root sha256_json "AuthorityGrant" id (grant_state g)
    version ← aggregate_position "AuthorityGrant" id before_root
    require (λ _. ltb 0 uses) integrity_error
    modify (λ h. record h { grants = update (is_grant id) (λ o. spent o uses) h.grants })
    updated ← row (λ h. grant_of h id) (raised Code.internal_error)
    event ← append_hub_event sha256_json (record {
      request = c.request;
      capability_id = c.capability.capability_id;
      aggregate_type = "AuthorityGrant";
      aggregate_id = id;
      aggregate_version = version + 1;
      before_root = before_root;
      after_root = aggregate_root sha256_json "AuthorityGrant" id (grant_state updated);
      event_result = fields (
          ("authorityUse", str "CONSUMED")
          ∷ ("grantId", num id)
          ∷ ("remainingUses", num (uses - 1))
          ∷ []);
      occurred_at = c.recorded_at;
      event_id = c.fresh use_draw;
    })
    pure (some event)

  unfoldable pub consume_retained : Call → ℕ → Grant → Option ℕ → Tx (Option ℕ)
  unfolding consume_uses
  consume_retained c id g none = raise (raised Code.internal_error)
  consume_retained c id g (some uses) = consume_uses c id g uses

  -- `_consume_grant_authority`: a grant without a limit is not consumed.
  unfoldable pub consume_grant_authority : Call → Basis → Tx (Option ℕ)
  unfolding consume_retained
  consume_grant_authority c (exact_author_action _) = pure none
  consume_grant_authority c (authority_grant id g) =
      if is_some g.remaining_uses
      then (do
        retained ← row (λ h. grant_of h id) (raised Code.internal_error)
        consume_retained c id retained retained.remaining_uses)
      else pure none

  abbrev with_use : Option ℕ → List (String × Json) → List (String × Json)
  with_use none r = r
  with_use (some use_event) r = r ++ ("authorityUseEventId", num use_event) ∷ []

  unfoldable pub main_entry : Call → Finish → Option ℕ → Entry
  main_entry c f used = record {
    request = c.request;
    capability_id = c.capability.capability_id;
    aggregate_type = c.request.aggregate_type;
    aggregate_id = c.request.aggregate_id;
    aggregate_version = f.aggregate_version;
    before_root = f.before_root;
    after_root = f.after_root;
    event_result = fields (with_use used f.event_result);
    occurred_at = c.recorded_at;
    event_id = c.fresh event_draw;
  }

  abbrev response : Call → Finish → ℕ → Response
  response c f event = record {
    before_root = f.before_root;
    after_root = f.after_root;
    aggregate_version = f.aggregate_version;
    created_ids = f.created_ids;
    event_id = event;
    receipt_id = c.fresh receipt_draw;
    request_sha256 = c.request_hash;
  }

  -- `_finalize_mutation`
  unfoldable pub finalize_mutation : Call → Basis → Finish → Tx Response
  unfolding main_entry
  finalize_mutation c basis f = do
    used ← consume_grant_authority c basis
    event ← append_hub_event sha256_json (main_entry c f used)
    consume_action basis event
    modify (f.link event)
    pure (response c f event)
