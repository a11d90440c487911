-- ===== src/Kernel/Authority/Call.antt =====
-- A call of the kernel, and `_authenticate`.
use codex_post_office.Base.{
  ℕ, String, Bool, false, not, ◌&&◌, ◌||◌, Option, none, some, List, [], ◌∷◌, Result, ok, err,
  raised, Code, find, leb, ◌==◌, str_eq, if◌then◌else◌,
}
use codex_post_office.Hub.{Hub, Actor, Capability, is_active, actor_kind_text}
use codex_post_office.Kernel.Events.Query.{Request}

-- What a mutation handler works with: the request, the capability that was authenticated, the
-- canonical request hash, the recorded time, the later time at which expiries are tested, and the
-- identifiers that `uuid4` gives, by draw.
pub record Call : Type 0 where
  pub request : Request
  pub capability : Capability
  pub request_hash : ℕ
  pub recorded_at : ℕ
  pub checked_at : ℕ
  pub fresh : ℕ → ℕ

-- A parsed credential file.
pub record Credential : Type 0 where
  pub capability_id : ℕ
  pub secret : ℕ

-- `name in names`
abbrev pub names : String → List String → Bool
names o [] = false
names o (x ∷ xs) = str_eq x o || names o xs

-- an instant that has come
abbrev pub is_past : Option ℕ → ℕ → Bool
is_past none now = false
is_past (some t) now = leb t now

abbrev pub actor_of : Hub → ℕ → Option Actor
actor_of h id = find (λ (a : Actor). a.actor_id == id) h.actors

abbrev pub capability_of : Hub → ℕ → Option Capability
capability_of h id = find (λ (c : Capability). c.capability_id == id) h.capabilities

-- the actor of the request is the capability's
abbrev pub same_actor : Request → Option Actor → Bool
same_actor r none = false
same_actor r (some a) =
    is_active a.status
    && r.actor_id == a.actor_id
    && str_eq r.actor_kind (actor_kind_text a.actor_kind)
    && str_eq r.actor_role a.role

admit : Request → ℕ → Hub → Capability → Result Capability
admit r now h c =
    if not (is_active c.status)
    then err (raised Code.authorization_denied)
    else if is_past c.expires_at now
    then err (raised Code.authorization_denied)
    else if not (same_actor r (actor_of h c.actor_id))
    then err (raised Code.authentication_failed)
    else if names r.operation c.allowed_operations
    then ok c
    else err (raised Code.authorization_denied)

with_secret : Request → ℕ → ℕ → Hub → Option Capability → Result Capability
unfolding admit
with_secret r supplied now h none = err (raised Code.authentication_failed)
with_secret r supplied now h (some c) =
    if c.secret_sha256 == supplied then admit r now h c else err (raised Code.authentication_failed)

-- `_authenticate`
unfoldable pub authenticate : (ℕ → ℕ) → Request → Credential → ℕ → Hub → Result Capability
unfolding with_secret
authenticate sha256_bytes r credential now h =
    if r.capability_id == credential.capability_id
    then with_secret r (sha256_bytes credential.secret) now h (capability_of h r.capability_id)
    else err (raised Code.authentication_failed)
