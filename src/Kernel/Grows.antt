-- ===== src/Kernel/Grows.antt =====
-- What a step does to the event log: `Quiet` steps leave it alone, `Grows` steps keep it verified,
-- and `GrowsAt` steps do so if the aggregate stands where the caller has read it.
use codex_post_office.Base.{
  ℕ, ◌+◌, ◌≡◌, refl, ◌∙◌, String, Bool, true, false, Result, ok, err, Failure, Json, arith, found,
  check, Option, List,
}
use codex_post_office.Hub.{Hub, Event}
use codex_post_office.Kernel.Transaction.{
  Tx, after, ◌>>=◌, pure, lifted, reading, raise, row, require, modify,
}
use codex_post_office.Kernel.Events.Query.{position_of, aggregate_position}
use codex_post_office.Kernel.Events.Append.{Entry, append_event, append_hub_event}
use codex_post_office.Kernel.Events.Growth.{IsHistory, append_event-continued, append_event-created}

pub >>=-ok :
    {A B : Type 0} (m : Tx A) (f : A → Tx B) (h : Hub) {b : B} {h' : Hub}
    → (m >>= f) h ≡ ok (b, h')
    → (a : A) × (g : Hub) × (m h ≡ ok (a, g)) × (f a g ≡ ok (b, h'))
unfolding ◌>>=◌
>>=-ok {A} {B} m f h {b} {h'} e = go (m h) refl e
  where
    go :
        (r : Result (A × Hub))
        → m h ≡ r
        → after r f ≡ ok (b, h')
        → (a : A) × (g : Hub) × (m h ≡ ok (a, g)) × (f a g ≡ ok (b, h'))
    go (ok (a, g)) p q = (a, g, p, q)
    go (err x) p q = absurd (ground arith)

pub record Quiet {A : Type 0} (m : Tx A) : Type 0 where
  pub at : (h : Hub) (a : A) (g : Hub) → m h ≡ ok (a, g) → g.events ≡ h.events

pub Quiet-pure : {A : Type 0} (a : A) → Quiet (pure a)
unfolding pure
Quiet-pure a = record { at = λ h b g e. ground arith }

pub Quiet-raise : {A : Type 0} (x : Failure) → Quiet (raise {A = A} x)
unfolding raise
Quiet-raise x = record { at = λ h b g e. cc }

lifted-quiet :
    {A : Type 0} (r : Result A) (h : Hub) (a : A) (g : Hub)
    → lifted r h ≡ ok (a, g)
    → g.events ≡ h.events
lifted-quiet (ok b) h a g e = ground arith
lifted-quiet (err x) h a g e = cc

pub Quiet-reading : {A : Type 0} (f : Hub → Result A) → Quiet (reading f)
unfolding reading
Quiet-reading f = record { at = λ h a g e. lifted-quiet (f h) h a g e }

pub Quiet-require : (test : Hub → Bool) (x : Failure) → Quiet (require test x)
Quiet-require test x = Quiet-reading (λ h. check (test h) x)

pub Quiet-row : {A : Type 0} (query : Hub → Option A) (x : Failure) → Quiet (row query x)
Quiet-row query x = Quiet-reading (λ h. found (query h) x)

pub Quiet-modify : (f : Hub → Hub) → ((h : Hub) → (f h).events ≡ h.events) → Quiet (modify f)
unfolding modify
Quiet-modify f keeps = record { at = λ h a g e. ground (arith, keeps h) }

pub Quiet-bind :
    {A B : Type 0} (m : Tx A) (f : A → Tx B) → Quiet m → ((a : A) → Quiet (f a)) → Quiet (m >>= f)
Quiet-bind m f qm qf = record {
  at = λ h b k e. let (a, g, p, q) = >>=-ok m f h e in (qf a).at g b k q ∙ qm.at h a g p;
}

pub reading-ok :
    {A : Type 0} (f : Hub → Result A) (h : Hub) {a : A} {g : Hub}
    → reading f h ≡ ok (a, g)
    → (f h ≡ ok a) × (g ≡ h)
unfolding reading
reading-ok {A} f h {a} {g} e = go (f h) refl e
  where
    go : (r : Result A) → f h ≡ r → lifted r h ≡ ok (a, g) → (f h ≡ ok a) × (g ≡ h)
    go (ok b) p q = (ground arith, ground arith)
    go (err x) p q = absurd (ground arith)

module _ (sha256_json : Json → ℕ) where
  pub record Grows {A : Type 0} (m : Tx A) : Type 0 where
    pub at :
        (h : Hub) (a : A) (g : Hub)
        → IsHistory sha256_json h.events
        → m h ≡ ok (a, g)
        → IsHistory sha256_json g.events

  pub record GrowsAt {A : Type 0} (kind : String) (id root v : ℕ) (m : Tx A) : Type 0 where
    pub at :
        (h : Hub) (a : A) (g : Hub)
        → IsHistory sha256_json h.events
        → position_of kind id root h.events ≡ ok v
        → m h ≡ ok (a, g)
        → IsHistory sha256_json g.events

  pub Grows-Quiet : {A : Type 0} (m : Tx A) → Quiet m → Grows m
  Grows-Quiet m q = record { at = λ h a g history e. rw (q.at h a g e) history }

  pub GrowsAt-Grows :
      {A : Type 0} (kind : String) (id root v : ℕ) (m : Tx A) → Grows m → GrowsAt kind id root v m
  GrowsAt-Grows kind id root v m gm = record { at = λ h a g history p e. gm.at h a g history e }

  module _ {A B : Type 0} (m : Tx A) (f : A → Tx B) where
    pub Grows-bind : Grows m → ((a : A) → Grows (f a)) → Grows (m >>= f)
    Grows-bind gm gf = record {
      at = λ h b k history e.
          let (a, g, p, q) = >>=-ok m f h e in (gf a).at g b k (gm.at h a g history p) q;
    }

    pub Grows-bind-Quiet : Quiet m → ((a : A) → Grows (f a)) → Grows (m >>= f)
    Grows-bind-Quiet qm gf = Grows-bind (Grows-Quiet m qm) gf

    module _ (kind : String) (id root v : ℕ) where
      pub GrowsAt-bind :
          GrowsAt kind id root v m → ((a : A) → Grows (f a)) → GrowsAt kind id root v (m >>= f)
      GrowsAt-bind gm gf = record {
        at = λ h b k history at_position e.
            let (a, g, p, q) = >>=-ok m f h e in
            (gf a).at g b k (gm.at h a g history at_position p) q;
      }

      pub GrowsAt-bind-Quiet :
          Quiet m → ((a : A) → GrowsAt kind id root v (f a)) → GrowsAt kind id root v (m >>= f)
      GrowsAt-bind-Quiet qm gf = record {
        at = λ h b k history at_position e.
            let (a, g, p, q) = >>=-ok m f h e in
            let same = qm.at h a g p in (gf a).at g b k (rw same history) (rw same at_position) q;
      }

  -- The position that is read here is the one that the rest relies on.
  pub Grows-position :
      {B : Type 0} (kind : String) (id root : ℕ) (f : ℕ → Tx B)
      → ((v : ℕ) → GrowsAt kind id root v (f v))
      → Grows (aggregate_position kind id root >>= f)
  Grows-position kind id root f gf = record {
    at = λ h b k history e.
        let (v, g, p, q) = >>=-ok (aggregate_position kind id root) f h e in
        let (r, s) = reading-ok (λ o. position_of kind id root o.events) h p in
        (gf v).at g b k (rw s history) (rw s r) q;
  }

  pub append_hub_event-ok :
      (x : Entry) (h : Hub) {a : ℕ} {g : Hub}
      → append_hub_event sha256_json x h ≡ ok (a, g)
      → (append_event sha256_json x h.events ≡ ok g.events) × (g ≡ record h { events = g.events })
  unfolding append_hub_event
  append_hub_event-ok x h {a} {g} e = go (append_event sha256_json x h.events) refl e
    where
      go :
          (r : Result (List Event))
          → append_event sha256_json x h.events ≡ r
          → after (lifted r h) (λ es o. ok (x.event_id, record o { events = es })) ≡ ok (a, g)
          → (append_event sha256_json x h.events ≡ ok g.events)
            × (g ≡ record h { events = g.events })
      go (ok es) p q = (rw p (ground arith), ground arith)
      go (err y) p q = absurd (ground arith)

  pub GrowsAt-append :
      (x : Entry) (v : ℕ)
      → x.aggregate_version ≡ v + 1
      → GrowsAt x.aggregate_type x.aggregate_id x.before_root v (append_hub_event sha256_json x)
  GrowsAt-append x v next = record {
    at = λ h a g history p e.
        append_event-continued sha256_json x h.events g.events history v p next
          (append_hub_event-ok x h e).0;
  }

  pub Grows-create : (x : Entry) → x.aggregate_version ≡ 1 → Grows (append_hub_event sha256_json x)
  Grows-create x first = record {
    at = λ h a g history e.
        append_event-created sha256_json x h.events g.events history first
          (append_hub_event-ok x h e).0;
  }

  -- What a test has shown holds in the rest.
  pub GrowsAt-require :
      {B : Type 0} (kind : String) (id root v : ℕ) (b : Bool) (x : Failure) (f : Unit {0} → Tx B)
      → (b ≡ true → GrowsAt kind id root v (f tt))
      → GrowsAt kind id root v (require (λ _. b) x >>= f)
  GrowsAt-require kind id root v true x f gf = record {
    at = λ h b k history stood e. (gf refl).at h b k history stood (unfold ◌>>=◌ in e);
  }
  GrowsAt-require kind id root v false x f gf = record {
    at = λ h b k history stood e. absurd (unfold ◌>>=◌ in ground arith);
  }
