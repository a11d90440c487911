-- ===== src/Kernel/Replay.antt =====
-- A request that has been carried out is answered from its record.
use codex_post_office.Base.{
  ℕ, ◌≡◌, refl, sym, ap, ◌∙◌, inl, inr, some, String, find, Result, ok, err, then_with, arith,
  ==-refl, Option-cases, Bool-cases,
}
use text.Mathlib.TextPositions.{eq_refl}
use codex_post_office.Hub.{Hub, Capability}
use codex_post_office.Kernel.Events.Query.{Request}
use codex_post_office.Kernel.Authority.Call.{authenticate, names}
use codex_post_office.Kernel.Authority.Finalize.{Response}
use codex_post_office.Kernel.Mutations.Execute.{Mutation, Environment, execute_mutation}
use codex_post_office.Kernel.Operation.{
  Retained, Store, Invocation, open_writer, serve, kernel_ready, retained_for, replay, committed,
  call_of, first_time, answer, hash_of_request, execute_operation,
}

then_with-ok :
    {A B : Type 0} (r : Result A) (f : A → Result B) (b : B)
    → then_with r f ≡ ok b
    → (a : A) × (r ≡ ok a) × (f a ≡ ok b)
then_with-ok (ok a) f b e = (a, refl, e)
then_with-ok (err x) f b e = absurd (ground arith)

-- What a successful call leaves: a record of the request that gives the response again.
Kept : ℕ → String → ℕ → Response → Store → Store → Type 0
Kept id operation request_hash r s s' =
    (k : Retained) × (find (retained_for id) s'.retained ≡ some k)
    × (replay operation request_hash k s' ≡ ok (r, s'))
    × (s'.instance_row ≡ s.instance_row)

replayed-Kept :
    (id : ℕ) (operation : String) (request_hash : ℕ) (k : Retained) (r : Response) (s s' : Store)
    → find (retained_for id) s.retained ≡ some k
    → replay operation request_hash k s ≡ ok (r, s')
    → Kept id operation request_hash r s s'
unfolding Kept
replayed-Kept id operation request_hash k r s s' found done =
    let same : s ≡ s' = unfold replay in ground arith in
    (
      k,
      ap (λ (o : Store). find (retained_for id) o.retained) (sym same) ∙ found,
      ap (λ o. replay operation request_hash k o) (sym same) ∙ done,
      ap (λ (o : Store). o.instance_row) (sym same),
    )

module _ (v : Environment) (sha256_bytes : ℕ → ℕ) (installed : ℕ) where
  committed-Kept :
      (i : Invocation) (s : Store) (r : Response) (h : Hub)
      → Kept i.request.request_id i.request.operation
          (hash_of_request v sha256_bytes installed i)
          r
          s
          (committed v sha256_bytes installed i s (r, h)).1
  unfolding Kept replay
  committed-Kept i s r h = (
    record_of,
    rw (==-refl i.request.request_id) refl,
    rw (eq_refl i.request.operation, ==-refl (v.sha256_json i.request.document)) refl,
    refl,
  )
    where
      record_of : Retained
      record_of = record {
        request_id = i.request.request_id;
        operation = i.request.operation;
        canonical_request_sha256 = v.sha256_json i.request.document;
        result = r;
      }

  executed-Kept :
      (i : Invocation) (s s' : Store) (r : Response) (x : Result (Response × Hub))
      → then_with x (λ o. ok (committed v sha256_bytes installed i s o)) ≡ ok (r, s')
      → Kept i.request.request_id i.request.operation
          (hash_of_request v sha256_bytes installed i)
          r
          s
          s'
  executed-Kept i s s' r (err x) e = absurd (ground arith)
  executed-Kept i s s' r (ok (o, h)) e =
      let (same, store) = pair_of e in rw (sym same, sym store) (committed-Kept i s o h)
    where
      pair_of :
          {a b : Response} {x y : Store}
          → ◌≡◌ {A = Result (Response × Store)} (ok (a, x)) (ok (b, y))
          → (a ≡ b) × (x ≡ y)
      pair_of q = (ground arith, ground arith)

  first_time-Kept :
      (i : Invocation) (m : Mutation) (capability : Capability) (s s' : Store) (r : Response)
      → first_time v sha256_bytes installed i m capability s ≡ ok (r, s')
      → Kept i.request.request_id i.request.operation
          (hash_of_request v sha256_bytes installed i)
          r
          s
          s'
  unfolding first_time
  first_time-Kept i m capability s s' r e =
      elim (Bool-cases (names i.request.operation v.implemented)) [
        | inl listed ↦
            executed-Kept i s s' r
              (execute_mutation v (call_of v sha256_bytes installed i capability) m s.hub)
              (rw listed at e)
        | inr missing ↦ absurd (let failed = rw missing at e in ground arith)
      ]

  answer-Kept :
      (i : Invocation) (m : Mutation) (capability : Capability) (s s' : Store) (r : Response)
      → answer v sha256_bytes installed i m capability s
          (find (retained_for i.request.request_id) s.retained)
        ≡ ok (r, s')
      → Kept i.request.request_id i.request.operation
          (hash_of_request v sha256_bytes installed i)
          r
          s
          s'
  unfolding answer
  answer-Kept i m capability s s' r done =
      elim (Option-cases (find (retained_for i.request.request_id) s.retained)) [
        | inr (k, found) ↦
            replayed-Kept i.request.request_id i.request.operation
              (hash_of_request v sha256_bytes installed i) k r s s' found (rw found at done)
        | inl new ↦ first_time-Kept i m capability s s' r (rw new at done)
      ]

  execute_operation-Kept :
      (i : Invocation) (m : Mutation) (s s' : Store) (r : Response)
      → execute_operation v sha256_bytes installed i m s ≡ ok (r, s')
      → (kernel_ready installed s.instance_row ≡ ok tt)
        × Kept i.request.request_id i.request.operation
            (hash_of_request v sha256_bytes installed i)
            r
            s
            s'
  unfolding execute_operation
  execute_operation-Kept i m s s' r done =
      let (w, opened, begun) =
        then_with-ok (open_writer v.sha256_json s) (λ _. serve v sha256_bytes installed i m s)
          (r, s') done in
      let (u, ready, rest) =
        then_with-ok (kernel_ready installed s.instance_row)
          (λ _.
            then_with (authenticate sha256_bytes i.request i.credential i.authenticated_at s.hub)
              λ k.
                answer v sha256_bytes installed i m k s
                  (find (retained_for i.request.request_id) s.retained))
          (r, s') begun in
      let (capability, known, answered) =
        then_with-ok (authenticate sha256_bytes i.request i.credential i.authenticated_at s.hub)
          (λ k.
            answer v sha256_bytes installed i m k s
              (find (retained_for i.request.request_id) s.retained))
          (r, s') rest in
      (ready, answer-Kept i m capability s s' r answered)

-- A request that has succeeded is answered again with the same response, and the store is left as
-- it is, whatever mutation its repetition would carry out, as long as the store that it has left
-- passes the checks of a writer and its credential still authenticates it.
pub execute_operation-replays :
    (v : Environment) (sha256_bytes : ℕ → ℕ) (installed : ℕ) (i j : Invocation) (m m' : Mutation)
    (s s' : Store) (r : Response) (capability : Capability)
    → execute_operation v sha256_bytes installed i m s ≡ ok (r, s')
    → j.request ≡ i.request
    → open_writer v.sha256_json s' ≡ ok tt
    → authenticate sha256_bytes j.request j.credential j.authenticated_at s'.hub ≡ ok capability
    → execute_operation v sha256_bytes installed j m' s' ≡ ok (r, s')
unfolding execute_operation answer Kept
execute_operation-replays v sha256_bytes installed i j m m' s s' r capability done same opens
      known =
    let (ready, record_kept) = execute_operation-Kept v sha256_bytes installed i m s s' r done in
    let (k, found, again, kept) = record_kept in
    let found' : find (retained_for j.request.request_id) s'.retained ≡ some k =
      ap (λ (q : Request). find (retained_for q.request_id) s'.retained) same ∙ found in
    let again' : replay j.request.operation (v.sha256_json j.request.document) k s' ≡ ok (r, s') =
      ap (λ (q : Request). replay q.operation (v.sha256_json q.document) k s') same ∙ again in
    simp (opens, ap (kernel_ready installed) kept ∙ ready, known, found', again')
