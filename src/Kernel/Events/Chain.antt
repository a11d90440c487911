-- ===== src/Kernel/Events/Chain.antt =====
-- `_validate_hub_event_chain`: the verification that every writer makes before it writes.
use codex_post_office.Base.{
  ℕ, ◌+◌, String, Bool, true, false, ◌&&◌, Option, none, some, List, [], ◌∷◌, Json, null, num, str,
  truth, list, object, Result, ok, err, raised, Code, ◌==◌, str_eq, if◌then◌else◌, same_option,
}
use codex_post_office.Hub.{Event}
use codex_post_office.Kernel.Events.Append.{event_body}

-- The variables of the loop; `positions` is the dictionary from an aggregate to its last version
-- and root.
pub record ChainState : Type 0 where
  pub previous_hash : Option ℕ
  pub expected_sequence : ℕ
  pub positions : String → ℕ → Option (ℕ × ℕ)

abbrev pub start : ChainState
start = record { previous_hash = none; expected_sequence = 1; positions = λ kind id. none }

abbrev pub put_position :
    String → ℕ → ℕ × ℕ → (String → ℕ → Option (ℕ × ℕ)) → String → ℕ → Option (ℕ × ℕ)
put_position kind id p positions k i = if str_eq kind k && id == i then some p else positions k i

is_object : Json → Bool
is_object (object fs) = true
is_object null = false
is_object (num n) = false
is_object (str s) = false
is_object (truth b) = false
is_object (list xs) = false

-- a retained position is followed by the next version, from the root that it left
abbrev pub continues : Option (ℕ × ℕ) → ℕ → ℕ → Bool
continues none version before = true
continues (some (v, root)) version before = version == v + 1 && before == root

module _ (sha256_json : Json → ℕ) where
  unfoldable pub event_is_valid : Event → ChainState → Bool
  unfolding is_object
  event_is_valid e s =
      e.sequence == s.expected_sequence
      && same_option e.previous_event_sha256 s.previous_hash
      && is_object e.result
      && sha256_json (event_body e) == e.event_sha256
      && continues (s.positions e.aggregate_type e.aggregate_id) e.aggregate_version
          e.before_state_root

  unfoldable pub next_state : Event → ChainState → ChainState
  next_state e s = record {
    previous_hash = some e.event_sha256;
    expected_sequence = s.expected_sequence + 1;
    positions =
        put_position e.aggregate_type e.aggregate_id (e.aggregate_version, e.after_state_root)
          s.positions;
  }

  unfoldable pub validate_from : List Event → ChainState → Result ChainState
  validate_from [] s = ok s
  validate_from (e ∷ es) s =
      let rest = validate_from es (next_state e s) in
      if event_is_valid e s then rest else err (raised Code.database_invalid)

  unfoldable pub validate_hub_event_chain : List Event → Result ChainState
  unfolding validate_from
  validate_hub_event_chain es = validate_from es start
