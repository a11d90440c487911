-- ===== src/Runtime/Courier.antt =====
-- `_courier`: the credential of a runtime call.
use codex_post_office.Base.{
  ℕ, Bool, true, false, not, ◌&&◌, Option, none, some, ◌==◌, raised, Code, Result, ok, err,
  if◌then◌else◌,
}
use codex_post_office.Hub.{Hub, Actor, ActorKind, Capability, is_active}
use codex_post_office.Kernel.Authority.Call.{Credential, capability_of, actor_of, is_past}

-- Who calls: the capability and its actor.
pub record Courier : Type 0 where
  pub capability : Capability
  pub actor : Actor

-- What `uuid4` is drawn for.
pub data Draw : Type 0 where
  dispatch_draw attention_draw receipt_draw event_draw request_draw : Draw

-- A call of the runtime: the instants at which the clock is read, and the identifiers that are
-- drawn for an entity. `authenticated_at` and `checked_at` are tested against expiries, and `now`
-- is recorded.
pub record Visit : Type 0 where
  pub credential : Credential
  pub authenticated_at : ℕ
  pub checked_at : ℕ
  pub now : ℕ
  pub fresh : Draw → ℕ → ℕ

abbrev pub may_courier : ActorKind → Bool
may_courier ActorKind.courier = true
may_courier ActorKind.system = true
may_courier _ = false

abbrev pub admits : (ℕ → ℕ) → Visit → Capability → Actor → Bool
admits sha256_bytes v c a =
    is_active c.status
    && c.secret_sha256 == sha256_bytes v.credential.secret
    && not (is_past c.expires_at v.authenticated_at)
    && is_active a.status
    && may_courier a.actor_kind

with_actor : (ℕ → ℕ) → Visit → Capability → Option Actor → Result Courier
with_actor sha256_bytes v c none = err (raised Code.authentication_failed)
with_actor sha256_bytes v c (some a) =
    if admits sha256_bytes v c a
    then ok (record { capability = c; actor = a })
    else err (raised Code.authentication_failed)

with_capability : (ℕ → ℕ) → Visit → Hub → Option Capability → Result Courier
unfolding with_actor
with_capability sha256_bytes v h none = err (raised Code.authentication_failed)
with_capability sha256_bytes v h (some c) = with_actor sha256_bytes v c (actor_of h c.actor_id)

-- `_courier`
unfoldable pub courier : (ℕ → ℕ) → Visit → Hub → Result Courier
unfolding with_capability
courier sha256_bytes v h =
    with_capability sha256_bytes v h (capability_of h v.credential.capability_id)
