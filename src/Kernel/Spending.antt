-- ===== src/Kernel/Spending.antt =====
-- `_finalize_mutation` keeps the event log verified, whatever authority it spends.
use codex_post_office.Base.{
  ℕ, ◌+◌, ◌≡◌, refl, ◌∙◌, ap, sym, ◌⊎◌, inl, inr, String, Option, none, some, Json, ok, Bool-cases,
  is_some,
}
use codex_post_office.Hub.{Hub, Grant}
use codex_post_office.Kernel.Transaction.{Tx, ◌>>=◌, ◌>>◌, pure, modify}
use codex_post_office.Kernel.Events.Query.{position_of, aggregate_position}
use codex_post_office.Kernel.Events.Append.{Entry, append_event, append_hub_event}
use codex_post_office.Kernel.Events.Growth.{
  append_event-continued, append_event-created, append_event-twice,
}
use codex_post_office.Kernel.Authority.Call.{Call}
use codex_post_office.Kernel.Authority.Basis.{Basis, exact_author_action, authority_grant}
use codex_post_office.Kernel.Authority.Finalize.{
  Finish, Response, consume_uses, consume_retained, consume_grant_authority, consume_action,
  finalize_mutation,
}
use codex_post_office.Kernel.Grows.{
  >>=-ok, reading-ok, Quiet, Quiet-pure, Quiet-raise, Quiet-require, Quiet-modify, Quiet-row,
  Quiet-bind, Grows, GrowsAt, append_hub_event-ok,
}

module _ (sha256_json : Json → ℕ) where
  -- One event more, of an aggregate that stood at the event's predecessor.
  pub record Advance (h g : Hub) : Type 0 where
    pub entry : Entry
    pub version : ℕ
    pub stood :
        position_of entry.aggregate_type entry.aggregate_id entry.before_root h.events ≡ ok version
    pub next : entry.aggregate_version ≡ version + 1
    pub done : append_event sha256_json entry h.events ≡ ok g.events

  record Advances {A : Type 0} (m : Tx A) : Type 0 where
    at : (h : Hub) (a : A) (g : Hub) → m h ≡ ok (a, g) → Advance h g

  record AdvancesAt {A : Type 0} (kind : String) (id root v : ℕ) (m : Tx A) : Type 0 where
    at :
        (h : Hub) (a : A) (g : Hub)
        → position_of kind id root h.events ≡ ok v
        → m h ≡ ok (a, g)
        → Advance h g

  move : {h h' g : Hub} → h'.events ≡ h.events → Advance h' g → Advance h g
  move same a = record {
    entry = a.entry;
    version = a.version;
    stood = rw (← same) a.stood;
    next = a.next;
    done = rw (← same) a.done;
  }

  Advances-position :
      {B : Type 0} (kind : String) (id root : ℕ) (f : ℕ → Tx B)
      → ((v : ℕ) → AdvancesAt kind id root v (f v))
      → Advances (aggregate_position kind id root >>= f)
  Advances-position kind id root f gf = record {
    at = λ h b k e.
        let (v, g, p, q) = >>=-ok (aggregate_position kind id root) f h e in
        let (r, s) = reading-ok (λ o. position_of kind id root o.events) h p in
        move (ap (λ (o : Hub). o.events) s) ((gf v).at g b k (rw s r) q);
  }

  Advances-bind :
      {A B : Type 0} (m : Tx A) (f : A → Tx B)
      → Quiet m
      → ((a : A) → Advances (f a))
      → Advances (m >>= f)
  Advances-bind m f qm gf = record {
    at = λ h b k e. let (a, g, p, q) = >>=-ok m f h e in move (qm.at h a g p) ((gf a).at g b k q);
  }

  AdvancesAt-bind :
      {A B : Type 0} (kind : String) (id root v : ℕ) (m : Tx A) (f : A → Tx B)
      → Quiet m
      → ((a : A) → AdvancesAt kind id root v (f a))
      → AdvancesAt kind id root v (m >>= f)
  AdvancesAt-bind kind id root v m f qm gf = record {
    at = λ h b k at_position e.
        let (a, g, p, q) = >>=-ok m f h e in
        let same = qm.at h a g p in move same ((gf a).at g b k (rw same at_position) q);
  }

  AdvancesAt-append :
      {B : Type 0} (x : Entry) (v : ℕ) (f : ℕ → Tx B)
      → x.aggregate_version ≡ v + 1
      → ((a : ℕ) → Quiet (f a))
      → AdvancesAt x.aggregate_type x.aggregate_id x.before_root v
          (append_hub_event sha256_json x >>= f)
  AdvancesAt-append x v f next qf = record {
    at = λ h b k at_position e.
        let (a, g, p, q) = >>=-ok (append_hub_event sha256_json x) f h e in
        record {
          entry = x;
          version = v;
          stood = at_position;
          next = next;
          done = (append_hub_event-ok sha256_json x h p).0 ∙ ap ok (sym ((qf a).at g b k q));
        };
  }

  consume_uses-Advances :
      (c : Call) (id : ℕ) (o : Grant) (uses : ℕ) → Advances (consume_uses sha256_json c id o uses)
  unfolding consume_uses
  consume_uses-Advances c id o uses = Advances-position _ _ _ _ λ v.
      AdvancesAt-bind _ _ _ _ _ _ (Quiet-require _ _) λ _.
        AdvancesAt-bind _ _ _ _ _ _ (Quiet-modify _ (λ h. refl)) λ _.
          AdvancesAt-bind _ _ _ _ _ _ (Quiet-row _ _)
            λ _. AdvancesAt-append _ _ _ refl λ _. Quiet-pure _

  record Spends {A : Type 0} (m : Tx A) : Type 0 where
    at : (h : Hub) (a : A) (g : Hub) → m h ≡ ok (a, g) → (g.events ≡ h.events) ⊎ Advance h g

  Spends-Quiet : {A : Type 0} (m : Tx A) → Quiet m → Spends m
  Spends-Quiet m q = record { at = λ h a g e. inl (q.at h a g e) }

  Spends-Advances : {A : Type 0} (m : Tx A) → Advances m → Spends m
  Spends-Advances m q = record { at = λ h a g e. inr (q.at h a g e) }

  consume_retained-Spends :
      (c : Call) (id : ℕ) (o : Grant) (uses : Option ℕ)
      → Spends (consume_retained sha256_json c id o uses)
  unfolding consume_retained
  consume_retained-Spends c id o none = Spends-Quiet _ (Quiet-raise _)
  consume_retained-Spends c id o (some uses) = Spends-Advances _ (consume_uses-Advances c id o uses)

  Spends-bind :
      {A B : Type 0} (m : Tx A) (f : A → Tx B)
      → Quiet m
      → ((a : A) → Spends (f a))
      → Spends (m >>= f)
  Spends-bind m f qm sf = record {
    at = λ h b k e.
        let (a, g, p, q) = >>=-ok m f h e in
        let same = qm.at h a g p in
        elim ((sf a).at g b k q) [ inl s ↦ inl (s ∙ same) | inr s ↦ inr (move same s) ];
  }

  consume_grant_authority-Spends :
      (c : Call) (basis : Basis) → Spends (consume_grant_authority sha256_json c basis)
  unfolding consume_grant_authority
  consume_grant_authority-Spends c (exact_author_action a) = Spends-Quiet _ (Quiet-pure _)
  consume_grant_authority-Spends c (authority_grant id o) =
      elim (Bool-cases (is_some o.remaining_uses)) [
        | inl limited ↦
            rw limited
              (Spends-bind _ _ (Quiet-row _ _) λ r. consume_retained-Spends c id r r.remaining_uses)
        | inr free ↦ rw free (Spends-Quiet _ (Quiet-pure _))
      ]

  consume_action-Quiet : (basis : Basis) (event_id : ℕ) → Quiet (consume_action basis event_id)
  unfolding consume_action
  consume_action-Quiet (authority_grant a o) event_id = Quiet-pure _
  consume_action-Quiet (exact_author_action a) event_id =
      Quiet-bind _ _ (Quiet-require _ _) λ _. Quiet-modify _ (λ h. refl)

  -- A first step that may spend, then an event, then steps that leave the log alone.
  module _ {B : Type 0} (m : Tx (Option ℕ)) (x : Option ℕ → Entry) (rest : Option ℕ → ℕ → Tx B)
      (spends : Spends m) (quiet : (u : Option ℕ) (event : ℕ) → Quiet (rest u event)) where
    GrowsAt-spends :
        (v : ℕ) (kind : String) (id root : ℕ)
        → ((u : Option ℕ) → (x u).aggregate_version ≡ v + 1)
        → ((u : Option ℕ)
            → ((x u).aggregate_type ≡ kind)
              × ((x u).aggregate_id ≡ id)
              × ((x u).before_root ≡ root))
        → GrowsAt sha256_json kind id root v
            (m >>= λ u. append_hub_event sha256_json (x u) >>= rest u)
    GrowsAt-spends v kind id root next named = record {
      at = λ h b k history stood e.
          let (u, g, p, q) = >>=-ok m _ h e in
          let (event, g2, r, s) = >>=-ok (append_hub_event sha256_json (x u)) (rest u) g q in
          let done = (append_hub_event-ok sha256_json (x u) g r).0 in
          let (k_, i_, r_) = named u in
          let stood' : position_of (x u).aggregate_type (x u).aggregate_id (x u).before_root
                h.events
              ≡ ok v =
            rw (k_, i_, r_) stood in
          rw ((quiet u event).at g2 b k s) (elim (spends.at h u g p) [
            | inl same ↦
                append_event-continued sha256_json (x u) g.events g2.events (rw same history) v
                  (rw same stood') (next u) done
            | inr a ↦
                append_event-twice sha256_json a.entry (x u) h.events g.events a.version v a.stood
                  a.next a.done stood' (next u) g2.events
                  (append_event-continued sha256_json a.entry h.events g.events history a.version
                    a.stood a.next a.done)
                  done
          ]);
    }

    Grows-spends :
        ((u : Option ℕ) → (x u).aggregate_version ≡ 1)
        → Grows sha256_json (m >>= λ u. append_hub_event sha256_json (x u) >>= rest u)
    Grows-spends first = record {
      at = λ h b k history e.
          let (u, g, p, q) = >>=-ok m _ h e in
          let (event, g2, r, s) = >>=-ok (append_hub_event sha256_json (x u)) (rest u) g q in
          let done = (append_hub_event-ok sha256_json (x u) g r).0 in
          rw ((quiet u event).at g2 b k s) (elim (spends.at h u g p) [
            | inl same ↦
                append_event-created sha256_json (x u) g.events g2.events (rw same history)
                  (first u) done
            | inr a ↦
                append_event-created sha256_json (x u) g.events g2.events
                  (append_event-continued sha256_json a.entry h.events g.events history a.version
                    a.stood a.next a.done)
                  (first u) done
          ]);
    }

  finish-Quiet :
      (basis : Basis) (f : Finish) (r : Response) (event : ℕ)
      → ((e : ℕ) (h : Hub) → (f.link e h).events ≡ h.events)
      → Quiet (consume_action basis event >> (modify (f.link event) >> pure r))
  finish-Quiet basis f r event link =
      Quiet-bind _ _ (consume_action-Quiet basis event)
        λ _. Quiet-bind _ _ (Quiet-modify _ (link event)) λ _. Quiet-pure _

  module _ (c : Call) (basis : Basis) (f : Finish)
      (link : (e : ℕ) (h : Hub) → (f.link e h).events ≡ h.events) where
    -- The main event carries the request's aggregate on from where the handler read it.
    pub finalize_mutation-GrowsAt :
        (v : ℕ) (kind : String) (id root : ℕ)
        → f.aggregate_version ≡ v + 1
        → c.request.aggregate_type ≡ kind
        → c.request.aggregate_id ≡ id
        → f.before_root ≡ root
        → GrowsAt sha256_json kind id root v (finalize_mutation sha256_json c basis f)
    unfolding finalize_mutation
    finalize_mutation-GrowsAt v kind id root next k i r =
        GrowsAt-spends _ _ _ (consume_grant_authority-Spends c basis)
          (λ u event. finish-Quiet basis f _ event link) v kind id root (λ u. next) (λ u. (k, i, r))

    -- The main event is the first of the request's aggregate.
    pub finalize_mutation-Grows :
        f.aggregate_version ≡ 1 → Grows sha256_json (finalize_mutation sha256_json c basis f)
    unfolding finalize_mutation
    finalize_mutation-Grows first =
        Grows-spends _ _ _ (consume_grant_authority-Spends c basis)
          (λ u event. finish-Quiet basis f _ event link) (λ u. first)
