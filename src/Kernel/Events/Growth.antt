-- ===== src/Kernel/Events/Growth.antt =====
-- Appending to a verified log gives a verified log.
use text.Mathlib.TextPositions.{eq_refl}
use codex_post_office.Base.{
  ℕ, ◌+◌, ◌≡◌, refl, ap, ◌∙◌, ◌≢◌, inl, inr, String, Bool, true, false, Option, none, List, [], ◌∷◌,
  ◌++◌, Json, ok, arith, Bool-cases, eq_iff, ◌==◌, any, ◌&&◌, ◌||◌, Option-cases, ==-refl,
  same_option_refl, if◌then◌else◌,
}
use codex_post_office.Hub.{Event}
use codex_post_office.Kernel.Events.Query.{highest, better, of_aggregate, latest_of, position_of}
use codex_post_office.Kernel.Events.Append.{
  Entry, event_body, conflicts, new_event, insertable, append_event,
}
use codex_post_office.Kernel.Events.Chain.{
  ChainState, event_is_valid, next_state, validate_hub_event_chain, continues,
}
use codex_post_office.Kernel.Events.History.{
  pair_of, validated-last, validated-position, validated-snoc,
}

abbrev pub first_of : String → ℕ → Event → Bool
first_of k i o = of_aggregate k i o && o.aggregate_version == 1

-- A log that the verification accepts, in which the history of every aggregate begins at version 1.
pub record IsHistory (sha256_json : Json → ℕ) (es : List Event) : Type 0 where
  pub state : ChainState
  pub valid : validate_hub_event_chain sha256_json es ≡ ok state
  pub starts : (k : String) (i : ℕ) → latest_of k i es ≢ none → any (first_of k i) es ≡ true

any-snoc {ℓ} :
    {A : Type ℓ} (test : A → Bool) (xs : List A) (x : A)
    → any test (xs ++ x ∷ []) ≡ (any test xs || test x)
any-snoc test [] x = ground arith
any-snoc test (y ∷ xs) x = ground (arith, any-snoc test xs x)

any-weaken {ℓ} :
    {A : Type ℓ} (p q : A → Bool) (xs : List A)
    → any p xs ≡ false
    → ((x : A) → q x ≡ true → p x ≡ true)
    → any q xs ≡ false
any-weaken p q [] h w = refl
any-weaken p q (x ∷ xs) h w = ground (arith, w x, any-weaken p q xs)

||-true : (b : Bool) → (b || true) ≡ true
||-true true = refl
||-true false = refl

highest-snoc :
    (rank : Event → ℕ) (test : Event → Bool) (best : Option Event) (es : List Event) (e : Event)
    → test e ≡ false
    → highest rank test best (es ++ e ∷ []) ≡ highest rank test best es
highest-snoc rank test best [] e h = rw h
highest-snoc rank test best (o ∷ es) e h =
    highest-snoc rank test (if test o then better rank best o else best) es e h

module _ (sha256_json : Json → ℕ) where
  new_event_columns :
      (x : Entry) (es : List Event)
      → let e = new_event sha256_json x es in
        (e.aggregate_type ≡ x.aggregate_type)
        × (e.aggregate_id ≡ x.aggregate_id)
        × (e.aggregate_version ≡ x.aggregate_version)
  unfolding new_event
  new_event_columns x es = (refl, refl, refl)

  of_aggregate-new :
      (x : Entry) (es : List Event) (k : String) (i : ℕ)
      → of_aggregate k i (new_event sha256_json x es) ≡ true
      → (x.aggregate_type ≡ k) × (x.aggregate_id ≡ i)
  unfolding new_event
  of_aggregate-new x es k i h =
      (ground (arith, eq_iff x.aggregate_type k), ground (arith, eq_iff x.aggregate_type k))

  first_of-new :
      (x : Entry) (es : List Event)
      → x.aggregate_version ≡ 1
      → first_of x.aggregate_type x.aggregate_id (new_event sha256_json x es) ≡ true
  unfolding new_event
  first_of-new x es h = simp (h, eq_refl, ==-refl)

  -- What a successful insertion has done.
  pub append_event-ok :
      (x : Entry) (es es' : List Event)
      → append_event sha256_json x es ≡ ok es'
      → (es' ≡ es ++ new_event sha256_json x es ∷ [])
        × (insertable sha256_json (new_event sha256_json x es) es ≡ true)
  unfolding append_event
  append_event-ok x es es' h = ground arith

  new_event-is_valid :
      (x : Entry) (es : List Event) (s : ChainState)
      → validate_hub_event_chain sha256_json es ≡ ok s
      → continues
          (pair_of (latest_of x.aggregate_type x.aggregate_id es))
          x.aggregate_version
          x.before_root
        ≡ true
      → event_is_valid sha256_json (new_event sha256_json x es) s ≡ true
  unfolding event_is_valid new_event event_body
  new_event-is_valid x es s valid c =
      let (p, q) = validated-last sha256_json es s valid in
      let r = validated-position sha256_json x.aggregate_type x.aggregate_id es s valid in
      simp (p, q, r, c, ==-refl, same_option_refl)

  conflicts-first :
      (x : Entry) (es : List Event)
      → x.aggregate_version ≡ 1
      → (o : Event) → first_of x.aggregate_type x.aggregate_id o ≡ true
      → conflicts (new_event sha256_json x es) o ≡ true
  unfolding new_event
  conflicts-first x es first o h = ground arith

  module _ (x : Entry) (es es' : List Event) (history : IsHistory sha256_json es) where
    own-starts :
        (latest_of x.aggregate_type x.aggregate_id es ≡ none → x.aggregate_version ≡ 1)
        → any (first_of x.aggregate_type x.aggregate_id) (es ++ new_event sha256_json x es ∷ [])
          ≡ true
    own-starts first = elim (Option-cases (latest_of x.aggregate_type x.aggregate_id es)) [
      | inl fresh ↦ rw (any-snoc, first_of-new x es (first fresh)) (||-true _)
      | inr (e, known) ↦
          rw (any-snoc, history.starts x.aggregate_type x.aggregate_id (λ n. cc (n, known)))
    ]

    appended-starts :
        append_event sha256_json x es ≡ ok es'
        → (latest_of x.aggregate_type x.aggregate_id es ≡ none → x.aggregate_version ≡ 1)
        → (k : String) (i : ℕ) → latest_of k i es' ≢ none
        → any (first_of k i) es' ≡ true
    appended-starts done first k i some_event =
        let e = new_event sha256_json x es in
        let grown = (append_event-ok x es es' done).0 in
        elim (Bool-cases (of_aggregate k i e)) [
          | inl mine ↦
              let (kind, id) = of_aggregate-new x es k i mine in
              rw (grown, ← kind, ← id) (own-starts first)
          | inr other ↦
              rw (grown, any-snoc)
                (rw (
                  history.starts k i
                    (λ n. some_event (rw grown (rw (highest-snoc _ _ none es e other) n)))))
        ]

    -- The log grows by one event and stays verified, if the event carries its aggregate on.
    append_event-IsHistory :
        append_event sha256_json x es ≡ ok es'
        → (latest_of x.aggregate_type x.aggregate_id es ≡ none → x.aggregate_version ≡ 1)
        → continues
            (pair_of (latest_of x.aggregate_type x.aggregate_id es))
            x.aggregate_version
            x.before_root
          ≡ true
        → IsHistory sha256_json es'
    append_event-IsHistory done first c = record {
      state = next_state sha256_json (new_event sha256_json x es) history.state;
      valid = rw (append_event-ok x es es' done).0 (
          validated-snoc sha256_json (new_event sha256_json x es) es history.state history.valid
            (new_event-is_valid x es history.state history.valid c));
      starts = appended-starts done first;
    }

    continued :
        (v : ℕ)
        → position_of x.aggregate_type x.aggregate_id x.before_root es ≡ ok v
        → x.aggregate_version ≡ v + 1
        → (latest_of x.aggregate_type x.aggregate_id es ≡ none → x.aggregate_version ≡ 1)
          × (continues
                (pair_of (latest_of x.aggregate_type x.aggregate_id es))
                x.aggregate_version
                x.before_root
              ≡ true)
    unfolding position_of
    continued v at_position next = (λ fresh. ground arith, ground arith)

    -- An event that moves its aggregate on from the position that the caller has read.
    pub append_event-continued :
        (v : ℕ)
        → position_of x.aggregate_type x.aggregate_id x.before_root es ≡ ok v
        → x.aggregate_version ≡ v + 1
        → append_event sha256_json x es ≡ ok es'
        → IsHistory sha256_json es'
    append_event-continued v at_position next done =
        let (first, c) = continued v at_position next in append_event-IsHistory done first c

    insertable-first :
        insertable sha256_json (new_event sha256_json x es) es ≡ true
        → x.aggregate_version ≡ 1
        → any (first_of x.aggregate_type x.aggregate_id) es ≡ false
    unfolding insertable
    insertable-first free first =
        any-weaken (conflicts (new_event sha256_json x es))
          (first_of x.aggregate_type x.aggregate_id) es (ground arith) (conflicts-first x es first)

    -- The first event of an aggregate: were there an earlier one, the table would refuse version 1.
    pub append_event-created :
        x.aggregate_version ≡ 1 → append_event sha256_json x es ≡ ok es' → IsHistory sha256_json es'
    append_event-created first done =
        elim (Option-cases (latest_of x.aggregate_type x.aggregate_id es)) [
          | inl fresh ↦ append_event-IsHistory done (λ _. first) (rw fresh)
          | inr (e, known) ↦
              (let found = history.starts x.aggregate_type x.aggregate_id (λ n. cc (n, known)) in
                let missing = insertable-first (append_event-ok x es es' done).1 first in
                cc (found, missing))
        ]

  pub position_of-append :
      (x : Entry) (k : String) (i root : ℕ) (es es' : List Event)
      → append_event sha256_json x es ≡ ok es'
      → of_aggregate k i (new_event sha256_json x es) ≡ false
      → position_of k i root es' ≡ position_of k i root es
  unfolding position_of
  position_of-append x k i root es es' done other = rw ((append_event-ok x es es' done).0) (
      rw (
        highest-snoc (λ e. e.aggregate_version) (of_aggregate k i) none es
          (new_event sha256_json x es) other))

  -- An event that carries its aggregate on from an earlier position cannot follow another event of
  -- the same aggregate: the table would refuse its version.
  module _ (x y : Entry) (es es' : List Event) (v w : ℕ)
      (x_at : position_of x.aggregate_type x.aggregate_id x.before_root es ≡ ok v)
      (x_next : x.aggregate_version ≡ v + 1) (x_done : append_event sha256_json x es ≡ ok es')
      (y_at : position_of y.aggregate_type y.aggregate_id y.before_root es ≡ ok w)
      (y_next : y.aggregate_version ≡ w + 1) where
    same_version :
        x.aggregate_type ≡ y.aggregate_type
        → x.aggregate_id ≡ y.aggregate_id
        → x.aggregate_version ≡ y.aggregate_version
    unfolding position_of
    same_version kind id = let x_at' = rw (kind, id) at x_at in ground arith

    conflicts-same :
        of_aggregate y.aggregate_type y.aggregate_id (new_event sha256_json x es) ≡ true
        → x.aggregate_version ≡ y.aggregate_version
        → conflicts (new_event sha256_json y es') (new_event sha256_json x es) ≡ true
    unfolding new_event
    conflicts-same mine same = ground arith

    pub clashes :
        of_aggregate y.aggregate_type y.aggregate_id (new_event sha256_json x es) ≡ true
        → insertable sha256_json (new_event sha256_json y es') es' ≡ false
    unfolding insertable
    clashes mine =
        let (kind, id) = of_aggregate-new x es y.aggregate_type y.aggregate_id mine in
        let hit = conflicts-same mine (same_version kind id) in
        let grown = (append_event-ok x es es' x_done).0 in
        let some_hit : any (conflicts (new_event sha256_json y es')) es' ≡ true =
          rw (ap (any (conflicts (new_event sha256_json y es'))) grown, any-snoc, hit)
            (||-true _) in
        rw some_hit

    -- So the log stays verified when a second event is appended at a position read before the first.
    pub append_event-twice :
        (es2 : List Event)
        → IsHistory sha256_json es'
        → append_event sha256_json y es' ≡ ok es2
        → IsHistory sha256_json es2
    append_event-twice es2 history done =
        elim (Bool-cases
          (of_aggregate y.aggregate_type y.aggregate_id (new_event sha256_json x es))) [
            | inl mine ↦ absurd (cc (clashes mine, (append_event-ok y es' es2 done).1))
            | inr other ↦
                append_event-continued y es' es2 history w
                  (position_of-append x y.aggregate_type y.aggregate_id y.before_root es es' x_done
                      other
                    ∙ y_at)
                  y_next done
          ]
