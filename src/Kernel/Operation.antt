-- ===== src/Kernel/Operation.antt =====
-- `execute_operation` for the mutations: the checks of a writer, the readiness of the kernel, authentication, the replay of
-- a retained request, and the idempotency record. A request that fails leaves the store as it was.
use codex_post_office.Kernel.Events.Chain.{validate_hub_event_chain}
use codex_post_office.Kernel.Projections.{validate_kernel_projections}
use codex_post_office.Base.{
  Json, check, any, true, false, ℕ, Bool, not, ◌&&◌, Option, none, some, List, ◌∷◌, String, find,
  ◌==◌, str_eq, if◌then◌else◌, Result, ok, err, raised, Code, then_with,
}
use codex_post_office.Hub.{Hub, Capability}
use codex_post_office.Kernel.Events.Query.{Request}
use codex_post_office.Kernel.Authority.Call.{Call, Credential, authenticate, names}
use codex_post_office.Kernel.Authority.Finalize.{Response}
use codex_post_office.Kernel.Mutations.Execute.{Mutation, Environment, execute_mutation}

-- A row of `idempotency_records` (the latest comes first); the result that it retains is the response.
pub record Retained : Type 0 where
  pub request_id : ℕ
  pub operation : String
  pub canonical_request_sha256 : ℕ
  pub result : Response

pub data Mode : Type 0 where
  isolated shadow : Mode

-- The row of `kernel_instances`, which bootstrapping leaves. Its mode is one of the two that are
-- permitted, by the CHECK constraint of the table, so the test of the mode has no branch.
pub record Instance : Type 0 where
  pub is_ready : Bool
  pub mode : Mode
  pub contract_root : ℕ

-- A row of `authority_transfers`: its state.
pub data Transfer : Type 0 where
  prepared committed_transfer rolled_back : Transfer

abbrev is_prepared : Transfer → Bool
is_prepared prepared = true
is_prepared _ = false

-- `is_operational`: the file has the identity that `validate_operational_connection` tests, which are
-- its migrations, its schema and its pragmas.
pub record Store : Type 0 where
  pub is_operational : Bool
  pub transfers : List Transfer
  pub hub : Hub
  pub retained : List Retained
  pub instance_row : Option Instance

-- What one call brings: the parsed request and credential, the instants at which the clock is
-- read, and the identifiers that `uuid4` gives.
pub record Invocation : Type 0 where
  pub request : Request
  pub credential : Credential
  pub authenticated_at : ℕ
  pub recorded_at : ℕ
  pub checked_at : ℕ
  pub fresh : ℕ → ℕ

-- `_open_writer`: the event log and the projections are valid, and no transfer of authority is prepared.
unfoldable pub open_writer : (Json → ℕ) → Store → Result (Unit {0})
unfolding validate_hub_event_chain validate_kernel_projections
open_writer sha256_json s = then_with (check s.is_operational (raised Code.database_invalid)) λ _.
    then_with (validate_hub_event_chain sha256_json s.hub.events) λ _.
      then_with (validate_kernel_projections sha256_json s.hub)
        λ _. check (not (any is_prepared s.transfers)) (raised Code.concurrency_conflict)

unfoldable pub kernel_ready : ℕ → Option Instance → Result (Unit {0})
kernel_ready installed none = err (raised Code.kernel_not_bootstrapped)
kernel_ready installed (some k) =
    if not k.is_ready
    then err (raised Code.kernel_not_bootstrapped)
    else if k.contract_root == installed
    then ok tt
    else err (raised Code.contract_invalid)

abbrev pub retained_for : ℕ → Retained → Bool
retained_for id r = r.request_id == id

-- The replay of a retained request: its result, unless the request differs.
unfoldable pub replay : String → ℕ → Retained → Store → Result (Response × Store)
replay operation request_hash r s =
    if str_eq r.operation operation && r.canonical_request_sha256 == request_hash
    then ok (r.result, s)
    else err (raised Code.idempotency_conflict)

module _ (v : Environment) (sha256_bytes : ℕ → ℕ) (installed : ℕ) where
  abbrev pub hash_of_request : Invocation → ℕ
  hash_of_request i = v.sha256_json i.request.document

  abbrev pub call_of : Invocation → Capability → Call
  call_of i capability = record {
    request = i.request;
    capability = capability;
    request_hash = hash_of_request i;
    recorded_at = i.recorded_at;
    checked_at = i.checked_at;
    fresh = i.fresh;
  }

  -- the state that is committed, with the idempotency record of the request
  abbrev pub committed : Invocation → Store → Response × Hub → Response × Store
  committed i s (r, h) = (
    r,
    record s {
      hub = h;
      retained =
          record {
            request_id = i.request.request_id;
            operation = i.request.operation;
            canonical_request_sha256 = hash_of_request i;
            result = r;
          }
          ∷ s.retained;
    },
  )

  unfoldable pub first_time : Invocation → Mutation → Capability → Store → Result (Response × Store)
  first_time i m capability s =
      if names i.request.operation v.implemented
      then then_with (execute_mutation v (call_of i capability) m s.hub) (λ r. ok (committed i s r))
      else err (raised Code.operation_not_implemented)

  unfoldable pub answer :
      Invocation → Mutation → Capability → Store → Option Retained → Result (Response × Store)
  answer i m capability s (some r) = replay i.request.operation (hash_of_request i) r s
  answer i m capability s none = first_time i m capability s

  -- what follows `_open_writer`
  unfoldable pub serve : Invocation → Mutation → Store → Result (Response × Store)
  serve i m s = then_with (kernel_ready installed s.instance_row) λ _.
      then_with (authenticate sha256_bytes i.request i.credential i.authenticated_at s.hub)
        λ capability. answer i m capability s (find (retained_for i.request.request_id) s.retained)

  -- `execute_operation`
  unfoldable pub execute_operation : Invocation → Mutation → Store → Result (Response × Store)
  unfolding serve
  execute_operation i m s = then_with (open_writer v.sha256_json s) λ _. serve i m s
