-- ===== src/Kernel/Events/History.antt =====
-- A log that the verification accepts, and what its queries say of it.
use codex_post_office.Base.{
  ℕ, ◌≡◌, refl, inl, inr, String, true, Option, none, some, List, [], ◌∷◌, ◌++◌, Json, ok, arith,
  Bool-cases, eq_iff, if◌then◌else◌,
}
use codex_post_office.Hub.{Event}
use codex_post_office.Kernel.Events.Query.{
  highest, better, always, of_aggregate, latest_of, last_event, sequence_after, hash_of,
}
use codex_post_office.Kernel.Events.Chain.{
  ChainState, start, event_is_valid, next_state, validate_from, validate_hub_event_chain,
}

abbrev pub pair_of : Option Event → Option (ℕ × ℕ)
pair_of none = none
pair_of (some e) = some (e.aggregate_version, e.after_state_root)

module _ (sha256_json : Json → ℕ) where
  -- A step that succeeds has passed its tests.
  validate_from-step :
      (e : Event) (es : List Event) (s s' : ChainState)
      → validate_from sha256_json (e ∷ es) s ≡ ok s'
      → (event_is_valid sha256_json e s ≡ true)
        × (validate_from sha256_json es (next_state sha256_json e s) ≡ ok s')
  unfolding validate_from
  validate_from-step e es s s' h = elim (Bool-cases (event_is_valid sha256_json e s)) [
    | inl v ↦ (v, rw v at h)
    | inr n ↦ absurd (ground arith)
  ]

  -- The loop's own variables are the answers of the queries that the writers make.
  validate_from-last :
      (es : List Event) (s s' : ChainState) (best : Option Event)
      → s.previous_hash ≡ hash_of best
      → s.expected_sequence ≡ sequence_after best
      → validate_from sha256_json es s ≡ ok s'
      → (s'.previous_hash ≡ hash_of (highest (λ e. e.sequence) always best es))
        × (s'.expected_sequence ≡ sequence_after (highest (λ e. e.sequence) always best es))
  unfolding validate_from
  validate_from-last [] s s' best p q h = ground arith
  validate_from-last (e ∷ es) s s' best p q h =
      let (v, r) = validate_from-step e es s s' h in
      validate_from-last es (next_state sha256_json e s) s' (better (λ e. e.sequence) best e)
        (unfold event_is_valid next_state in ground arith)
        (unfold event_is_valid next_state in ground arith) r

  next_state-position :
      (k : String) (i : ℕ) (e : Event) (s : ChainState) (best : Option Event)
      → s.positions k i ≡ pair_of best
      → event_is_valid sha256_json e s ≡ true
      → (next_state sha256_json e s).positions k i
        ≡ pair_of (if of_aggregate k i e then better (λ o. o.aggregate_version) best e else best)
  unfolding event_is_valid next_state
  next_state-position k i e s none p v = ground (arith, eq_iff e.aggregate_type k)
  next_state-position k i e s (some b) p v = ground (arith, eq_iff e.aggregate_type k)

  validate_from-position :
      (k : String) (i : ℕ) (es : List Event) (s s' : ChainState) (best : Option Event)
      → s.positions k i ≡ pair_of best
      → validate_from sha256_json es s ≡ ok s'
      → s'.positions k i ≡ pair_of (highest (λ e. e.aggregate_version) (of_aggregate k i) best es)
  unfolding validate_from
  validate_from-position k i [] s s' best p h = ground arith
  validate_from-position k i (e ∷ es) s s' best p h =
      let (v, r) = validate_from-step e es s s' h in
      validate_from-position k i es (next_state sha256_json e s) s' _
        (next_state-position k i e s best p v) r

  -- A verified log as its writers see it.
  pub validated-last :
      (es : List Event) (s : ChainState)
      → validate_hub_event_chain sha256_json es ≡ ok s
      → (s.previous_hash ≡ hash_of (last_event es))
        × (s.expected_sequence ≡ sequence_after (last_event es))
  unfolding validate_hub_event_chain
  validated-last es s h = validate_from-last es start s none refl refl h

  pub validated-position :
      (k : String) (i : ℕ) (es : List Event) (s : ChainState)
      → validate_hub_event_chain sha256_json es ≡ ok s
      → s.positions k i ≡ pair_of (latest_of k i es)
  unfolding validate_hub_event_chain
  validated-position k i es s h = validate_from-position k i es start s none refl h

  validate_from-snoc :
      (e : Event) (es : List Event) (s s' : ChainState)
      → validate_from sha256_json es s ≡ ok s'
      → event_is_valid sha256_json e s' ≡ true
      → validate_from sha256_json (es ++ e ∷ []) s ≡ ok (next_state sha256_json e s')
  unfolding validate_from
  validate_from-snoc e [] s s' h v = let same : s ≡ s' = cc in rw same (rw v)
  validate_from-snoc e (o ∷ es) s s' h v =
      let (w, r) = validate_from-step o es s s' h in
      rw w (validate_from-snoc e es (next_state sha256_json o s) s' r v)

  -- One more event that passes the tests of the loop at its end.
  pub validated-snoc :
      (e : Event) (es : List Event) (s : ChainState)
      → validate_hub_event_chain sha256_json es ≡ ok s
      → event_is_valid sha256_json e s ≡ true
      → validate_hub_event_chain sha256_json (es ++ e ∷ []) ≡ ok (next_state sha256_json e s)
  unfolding validate_hub_event_chain
  validated-snoc e es s h v = validate_from-snoc e es start s h v
