-- ===== src/Kernel/Events/Query.antt =====
-- Queries of the event table, and the position of an aggregate.
use codex_post_office.Base.{
  ℕ, ◌+◌, String, Bool, ◌&&◌, Option, none, some, List, [], ◌∷◌, Json, num, str, obj, Result, ok,
  err, raised, Code, check, ltb, ◌==◌, str_eq, if◌then◌else◌,
}
use codex_post_office.Hub.{Event}
use codex_post_office.Kernel.Transaction.{Tx, reading}

-- The envelope of an operation request. Its parameters are the arguments of the handlers;
-- `document` is the whole request as JSON, and `scope_json` the canonical text of its aggregate
-- and parameters. The expected root stands without its optional prefix `sha256:`.
pub record Request : Type 0 where
  pub operation : String
  pub request_id : ℕ
  pub actor_id : ℕ
  pub actor_kind : String
  pub actor_role : String
  pub capability_id : ℕ
  pub authority_grant_id : Option ℕ
  pub exact_author_action_id : Option ℕ
  pub aggregate_type : String
  pub aggregate_id : ℕ
  pub expected_version : Option ℕ
  pub expected_root : Option ℕ
  pub document : Json
  pub scope_json : ℕ

-- `ORDER BY rank DESC LIMIT 1` over the rows that meet a test, from the best row so far.
abbrev pub better : (Event → ℕ) → Option Event → Event → Option Event
better rank none e = some e
better rank (some b) e = if ltb (rank b) (rank e) then some e else some b

abbrev pub highest : (Event → ℕ) → (Event → Bool) → Option Event → List Event → Option Event
highest rank test best [] = best
highest rank test best (e ∷ es) = highest rank test (if test e then better rank best e else best) es

abbrev pub of_aggregate : String → ℕ → Event → Bool
of_aggregate kind id e = str_eq e.aggregate_type kind && e.aggregate_id == id

abbrev pub always : Event → Bool
always e = Bool.true

-- the latest event of an aggregate, by its version
abbrev pub latest_of : String → ℕ → List Event → Option Event
latest_of kind id es = highest (λ e. e.aggregate_version) (of_aggregate kind id) none es

-- `ORDER BY sequence DESC LIMIT 1`
abbrev pub last_event : List Event → Option Event
last_event es = highest (λ e. e.sequence) always none es

-- `COALESCE(MAX(sequence),0)+1`
abbrev pub sequence_after : Option Event → ℕ
sequence_after none = 1
sequence_after (some e) = e.sequence + 1

abbrev pub hash_of : Option Event → Option ℕ
hash_of none = none
hash_of (some e) = some e.event_sha256

-- `_aggregate_root`
unfoldable pub aggregate_root : (Json → ℕ) → String → ℕ → Json → ℕ
aggregate_root sha256_json kind id state =
    sha256_json
      (obj (("aggregateType", str kind) ∷ ("aggregateId", num id) ∷ ("state", state) ∷ []))

position_at : Option Event → ℕ → Result ℕ
position_at none root = ok 0
position_at (some e) root =
    if e.after_state_root == root
    then ok e.aggregate_version
    else err (raised Code.database_invalid)

-- `_aggregate_position`: the version of the aggregate, whose current state must have the root that
-- its latest event left.
unfoldable pub position_of : String → ℕ → ℕ → List Event → Result ℕ
unfolding position_at
position_of kind id root es = position_at (latest_of kind id es) root

abbrev pub aggregate_position : String → ℕ → ℕ → Tx ℕ
aggregate_position kind id root = reading (λ h. position_of kind id root h.events)

abbrev matches : Option ℕ → ℕ → Bool
matches none actual = Bool.true
matches (some expected) actual = expected == actual

-- `assert_aggregate_concurrency`
unfoldable pub aggregate_matches : Request → String → ℕ → ℕ → ℕ → Bool
aggregate_matches r kind id version root =
    str_eq r.aggregate_type kind
    && r.aggregate_id == id
    && matches r.expected_version version
    && matches r.expected_root root

-- `_require_aggregate`
unfoldable pub require_aggregate : Request → String → ℕ → ℕ → ℕ → Result (Unit {0})
unfolding aggregate_matches
require_aggregate r kind id version root =
    check (aggregate_matches r kind id version root) (raised Code.concurrency_conflict)
