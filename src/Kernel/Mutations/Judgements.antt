-- ===== src/Kernel/Mutations/Judgements.antt =====
-- Judgements on the steps of a handler. A handler is `Orderly` when it keeps the event log verified,
-- consumes the author's action that the request names, and refuses an unauthorised call.
-- `OrderlyAt` supposes that the aggregate stands where the handler has read it; `Settles` and
-- `SettlesAt` judge what follows the authority basis.
use codex_post_office.Base.{ℕ, ◌+◌, ◌≡◌, ◌∙◌, ap, String, false, some, Json, Result, ok, Failure}
use codex_post_office.Hub.{Hub, Scope}
use codex_post_office.Kernel.Transaction.{Tx, pure, reading, require, raise, ◌>>=◌}
use codex_post_office.Kernel.Events.Query.{
  Request, aggregate_matches, aggregate_position, position_of, of_aggregate,
}
use codex_post_office.Kernel.Events.Append.{Entry, append_hub_event, new_event}
use codex_post_office.Kernel.Events.Growth.{position_of-append}
use codex_post_office.Kernel.Authority.Call.{Call}
use codex_post_office.Kernel.Authority.Basis.{
  Basis, exact_author_action, prepare_mutation_authority,
}
use codex_post_office.Kernel.Authority.Finalize.{Finish, finalize_mutation}
use codex_post_office.Kernel.Authority.Authorised.{
  whole, Unauthorised, prepare_mutation_authority-Unauthorised,
}
use codex_post_office.Kernel.Authority.Actions.{
  actions_of, IsConsumed, prepare_mutation_authority-Gives, finalize_mutation-Ends,
}
use codex_post_office.Kernel.Grows.{
  >>=-ok, Quiet, Quiet-reading, Quiet-pure, Quiet-bind, Quiet-raise, Grows, GrowsAt, Grows-bind,
  Grows-bind-Quiet, Grows-position, GrowsAt-bind, GrowsAt-bind-Quiet, GrowsAt-require,
  GrowsAt-Grows, append_hub_event-ok,
}
use codex_post_office.Kernel.Steps.{
  Keeps, Keeps-reading, Keeps-pure, Keeps-bind, Keeps-raise, Ends, Ends-bind, Ends-then, Ends-Gives,
  Blocked, Blocked-here, Blocked-later,
}
use codex_post_office.Kernel.Spending.{finalize_mutation-GrowsAt, finalize_mutation-Grows}
use codex_post_office.Kernel.Mutations.QuietSteps.{
  aggregate_matches-eq, Quiet-prepare_authority, Made,
}

-- A step that keeps the whole hub.
pub record IsStill {A : Type 0} (m : Tx A) : Type 0 where
  pub quiet : Quiet m
  pub keeps : Keeps whole m

-- An update, given the event, that keeps the log and the authors' actions.
abbrev pub KeepsLog : (ℕ → Hub → Hub) → Type 0
KeepsLog link =
    (e : ℕ) (h : Hub) → ((link e h).events ≡ h.events) × ((link e h).actions ≡ h.actions)

pub Keeps-append :
    (sha256_json : Json → ℕ) (x : Entry) → Keeps actions_of (append_hub_event sha256_json x)
Keeps-append sha256_json x = record {
  at = λ h a g e.
      let (p, q) = append_hub_event-ok sha256_json x h e in ap (λ (o : Hub). o.actions) q;
}

module _ (sha256_json : Json → ℕ) where
  pub GrowsAt-Made :
      {A B : Type 0} (P : A → Type 0) (m : Tx A) (f : A → Tx B) (kind : String) (id root v : ℕ)
      → Made P m
      → ((a : A) → P a → GrowsAt sha256_json kind id root v (f a))
      → GrowsAt sha256_json kind id root v (m >>= f)
  GrowsAt-Made P m f kind id root v made gf = record {
    at = λ h b k history stood e.
        let (a, g, p, q) = >>=-ok m f h e in
        let (same, shown) = made.at h a g p in
        (gf a shown).at g b k (rw same history) (rw same stood) q;
  }

  -- A step after which the aggregate stands where it stood.
  pub record Still {A : Type 0} (kind : String) (id : ℕ) (m : Tx A) : Type 0 where
    pub at :
        (h : Hub) (a : A) (g : Hub)
        → m h ≡ ok (a, g)
        → (root : ℕ) → position_of kind id root g.events ≡ position_of kind id root h.events

  module _ (kind : String) (id : ℕ) where
    pub Still-Quiet : {A : Type 0} (m : Tx A) → Quiet m → Still kind id m
    Still-Quiet m q = record { at = λ h a g e root. ap (position_of kind id root) (q.at h a g e) }

    pub Still-bind :
        {A B : Type 0} (m : Tx A) (f : A → Tx B)
        → Still kind id m
        → ((a : A) → Still kind id (f a))
        → Still kind id (m >>= f)
    Still-bind m f sm sf = record {
      at = λ h b k e root.
          let (a, g, p, q) = >>=-ok m f h e in (sf a).at g b k q root ∙ sm.at h a g p root;
    }

    pub Still-append :
        (x : Entry)
        → ((h : Hub) → of_aggregate kind id (new_event sha256_json x h.events) ≡ false)
        → Still kind id (append_hub_event sha256_json x)
    Still-append x other = record {
      at = λ h a g e root.
          position_of-append sha256_json x kind id root h.events g.events
            (append_hub_event-ok sha256_json x h e).0 (other h);
    }

    pub GrowsAt-Still :
        {A B : Type 0} (m : Tx A) (f : A → Tx B) (root v : ℕ)
        → Still kind id m
        → Grows sha256_json m
        → ((a : A) → GrowsAt sha256_json kind id root v (f a))
        → GrowsAt sha256_json kind id root v (m >>= f)
    GrowsAt-Still m f root v still gm gf = record {
      at = λ h b k history stood e.
          let (a, g, p, q) = >>=-ok m f h e in
          (gf a).at g b k (gm.at h a g history p) (still.at h a g p root ∙ stood) q;
    }

  -- The gate, after which the request names the aggregate.
  pub GrowsAt-gate :
      {B : Type 0} (r : Request) (kind : String) (id root v : ℕ) (x : Failure) (f : Unit {0} → Tx B)
      → (r.aggregate_type ≡ kind → r.aggregate_id ≡ id → GrowsAt sha256_json kind id root v (f tt))
      → GrowsAt sha256_json kind id root v
          (require (λ _. aggregate_matches r kind id v root) x >>= f)
  GrowsAt-gate r kind id root v x f gf =
      GrowsAt-require sha256_json kind id root v (aggregate_matches r kind id v root) x f
        λ named. let (k, i) = aggregate_matches-eq r kind id v root named in gf k i

module _ (sha256_json : Json → ℕ) (c : Call) where
  pub record Orderly {A : Type 0} (m : Tx A) : Type 0 where
    pub grows : Grows sha256_json m
    pub ends :
        (action : ℕ)
        → c.request.exact_author_action_id ≡ some action
        → Ends actions_of (IsConsumed action) m
    pub blocked : Blocked whole (Unauthorised c) m

  pub record OrderlyAt {A : Type 0} (kind : String) (id root v : ℕ) (m : Tx A) : Type 0 where
    pub grows :
        c.request.aggregate_type ≡ kind
        → c.request.aggregate_id ≡ id
        → GrowsAt sha256_json kind id root v m
    pub ends :
        (action : ℕ)
        → c.request.exact_author_action_id ≡ some action
        → Ends actions_of (IsConsumed action) m
    pub blocked : Blocked whole (Unauthorised c) m

  pub record Settles {A : Type 0} (basis : Basis) (m : Tx A) : Type 0 where
    pub grows : Grows sha256_json m
    pub ends :
        (action : ℕ) → basis ≡ exact_author_action action → Ends actions_of (IsConsumed action) m

  pub record SettlesAt {A : Type 0} (basis : Basis) (kind : String) (id root v : ℕ) (m : Tx A)
      : Type 0 where
    pub grows :
        c.request.aggregate_type ≡ kind
        → c.request.aggregate_id ≡ id
        → GrowsAt sha256_json kind id root v m
    pub ends :
        (action : ℕ) → basis ≡ exact_author_action action → Ends actions_of (IsConsumed action) m

  module _ {A B : Type 0} (m : Tx A) (f : A → Tx B) where
    pub Orderly-Still : IsStill m → ((a : A) → Orderly (f a)) → Orderly (m >>= f)
    Orderly-Still still of = record {
      grows = Grows-bind-Quiet sha256_json m f still.quiet λ a. (of a).grows;
      ends = λ action named. Ends-bind _ _ m f λ a. (of a).ends action named;
      blocked = Blocked-later _ _ m f still.keeps λ a. (of a).blocked;
    }

    pub OrderlyAt-Still :
        (kind : String) (id root v : ℕ)
        → IsStill m
        → ((a : A) → OrderlyAt kind id root v (f a))
        → OrderlyAt kind id root v (m >>= f)
    OrderlyAt-Still kind id root v still of = record {
      grows = λ k i.
          GrowsAt-bind-Quiet sha256_json m f kind id root v still.quiet λ a. (of a).grows k i;
      ends = λ action named. Ends-bind _ _ m f λ a. (of a).ends action named;
      blocked = Blocked-later _ _ m f still.keeps λ a. (of a).blocked;
    }

    pub Settles-Quiet :
        (basis : Basis) → Quiet m → ((a : A) → Settles basis (f a)) → Settles basis (m >>= f)
    Settles-Quiet basis quiet sf = record {
      grows = Grows-bind-Quiet sha256_json m f quiet λ a. (sf a).grows;
      ends = λ action same. Ends-bind _ _ m f λ a. (sf a).ends action same;
    }

    pub SettlesAt-Quiet :
        (basis : Basis) (kind : String) (id root v : ℕ)
        → Quiet m
        → ((a : A) → SettlesAt basis kind id root v (f a))
        → SettlesAt basis kind id root v (m >>= f)
    SettlesAt-Quiet basis kind id root v quiet sf = record {
      grows = λ k i. GrowsAt-bind-Quiet sha256_json m f kind id root v quiet λ a. (sf a).grows k i;
      ends = λ action same. Ends-bind _ _ m f λ a. (sf a).ends action same;
    }

    -- What is appended after the authority has been spent.
    pub Settles-then :
        (basis : Basis)
        → Settles basis m
        → ((a : A) → Grows sha256_json (f a))
        → ((a : A) → Keeps actions_of (f a))
        → Settles basis (m >>= f)
    Settles-then basis sm gf kf = record {
      grows = Grows-bind sha256_json m f sm.grows gf;
      ends = λ action same. Ends-then _ _ m f (sm.ends action same) kf;
    }

    -- What is appended after the authority has been spent, at a position of its own.
    pub SettlesAt-then :
        (basis : Basis) (kind : String) (id root v : ℕ)
        → SettlesAt basis kind id root v m
        → ((a : A) → Grows sha256_json (f a))
        → ((a : A) → Keeps actions_of (f a))
        → SettlesAt basis kind id root v (m >>= f)
    SettlesAt-then basis kind id root v sm gf kf = record {
      grows = λ k i. GrowsAt-bind sha256_json m f kind id root v (sm.grows k i) gf;
      ends = λ action same. Ends-then _ _ m f (sm.ends action same) kf;
    }

  -- The reading of the aggregate's position, and the gate.
  pub Orderly-gate :
      {B : Type 0} (kind : String) (id root : ℕ) (x : Failure) (f : ℕ → Tx B)
      → ((v : ℕ) → OrderlyAt kind id root v (f v))
      → Orderly (
          aggregate_position kind id root >>= λ v.
          require (λ _. aggregate_matches c.request kind id v root) x >>= λ _. f v)
  Orderly-gate kind id root x f of = record {
    grows =
        Grows-position sha256_json kind id root _
          λ v. GrowsAt-gate sha256_json c.request kind id root v x _ (of v).grows;
    ends = λ action named. Ends-bind _ _ _ _ λ v. Ends-bind _ _ _ _ λ _. (of v).ends action named;
    blocked =
        Blocked-later _ _ _ _ (Keeps-reading _ _)
          λ v. Blocked-later _ _ _ _ (Keeps-reading _ _) λ _. (of v).blocked;
  }

  pub Orderly-prepare :
      {B : Type 0} (facts : Scope) (f : Basis → Tx B)
      → ((basis : Basis) → Settles basis (f basis))
      → Orderly (prepare_mutation_authority c facts >>= f)
  Orderly-prepare facts f sf = record {
    grows = Grows-bind-Quiet sha256_json _ f (Quiet-prepare_authority c facts) λ b. (sf b).grows;
    ends = λ action named.
        Ends-Gives _ _ _ f _ (prepare_mutation_authority-Gives c facts action named)
          λ b same. (sf b).ends action same;
    blocked = Blocked-here _ _ _ f (prepare_mutation_authority-Unauthorised c facts);
  }

  pub OrderlyAt-prepare :
      {B : Type 0} (kind : String) (id root v : ℕ) (facts : Scope) (f : Basis → Tx B)
      → ((basis : Basis) → SettlesAt basis kind id root v (f basis))
      → OrderlyAt kind id root v (prepare_mutation_authority c facts >>= f)
  OrderlyAt-prepare kind id root v facts f sf = record {
    grows = λ k i.
        GrowsAt-bind-Quiet sha256_json _ f kind id root v (Quiet-prepare_authority c facts)
          λ b. (sf b).grows k i;
    ends = λ action named.
        Ends-Gives _ _ _ f _ (prepare_mutation_authority-Gives c facts action named)
          λ b same. (sf b).ends action same;
    blocked = Blocked-here _ _ _ f (prepare_mutation_authority-Unauthorised c facts);
  }

  -- a handler that creates its aggregate, whatever the position
  pub SettlesAt-Settles :
      {A : Type 0} (basis : Basis) (kind : String) (id root v : ℕ) (m : Tx A)
      → Settles basis m
      → SettlesAt basis kind id root v m
  SettlesAt-Settles basis kind id root v m sm = record {
    grows = λ k i. GrowsAt-Grows sha256_json kind id root v m sm.grows;
    ends = sm.ends;
  }

  pub finalize_mutation-Settles :
      (basis : Basis) (f : Finish)
      → KeepsLog f.link
      → f.aggregate_version ≡ 1
      → Settles basis (finalize_mutation sha256_json c basis f)
  finalize_mutation-Settles basis f link first = record {
    grows = finalize_mutation-Grows sha256_json c basis f (λ e h. (link e h).0) first;
    ends =
        λ action same. finalize_mutation-Ends sha256_json c basis f action same λ e h. (link e h).1;
  }

  pub finalize_mutation-SettlesAt :
      (basis : Basis) (f : Finish) (kind : String) (id root v : ℕ)
      → KeepsLog f.link
      → f.aggregate_version ≡ v + 1
      → f.before_root ≡ root
      → SettlesAt basis kind id root v (finalize_mutation sha256_json c basis f)
  finalize_mutation-SettlesAt basis f kind id root v link next same_root = record {
    grows = λ k i.
        finalize_mutation-GrowsAt sha256_json c basis f (λ e h. (link e h).0) v kind id root next k
          i same_root;
    ends =
        λ action same. finalize_mutation-Ends sha256_json c basis f action same λ e h. (link e h).1;
  }

-- The steps of the handlers that are still.
pub IsStill-reading : {A : Type 0} (query : Hub → Result A) → IsStill (reading query)
IsStill-reading query = record { quiet = Quiet-reading query; keeps = Keeps-reading _ query }

pub IsStill-pure : {A : Type 0} (a : A) → IsStill (pure a)
IsStill-pure a = record { quiet = Quiet-pure a; keeps = Keeps-pure _ a }

pub IsStill-bind :
    {A B : Type 0} (m : Tx A) (f : A → Tx B)
    → IsStill m
    → ((a : A) → IsStill (f a))
    → IsStill (m >>= f)
IsStill-bind m f sm sf = record {
  quiet = Quiet-bind m f sm.quiet λ a. (sf a).quiet;
  keeps = Keeps-bind _ m f sm.keeps λ a. (sf a).keeps;
}

pub IsStill-raise : {A : Type 0} (x : Failure) → IsStill (raise {A = A} x)
IsStill-raise x = record { quiet = Quiet-raise x; keeps = Keeps-raise _ x }
