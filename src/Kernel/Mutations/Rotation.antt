-- ===== src/Kernel/Mutations/Rotation.antt =====
-- A rotation gives a mailbox a generation above all that it has had.
use codex_post_office.Base.{
  ℕ, ◌+◌, ◌<◌, ◌≡◌, refl, ◌∙◌, ap, Bool, true, ◌&&◌, List, [], ◌∷◌, ◌++◌, map, Json, select, ltb,
  leb, ◌==◌, if◌then◌else◌, ok, Bool-cases, inl, inr, arith, map-update, map-snoc,
}
use mathlib.Core.Path.{subst}
use codex_post_office.Hub.{Hub, Mailbox}
use codex_post_office.Kernel.Steps.{Keeps-reading, Keeps-modify, Keeps-bind}
use codex_post_office.Kernel.Moves.{Moves, Moves-skip, Moves-reading, Moves-then, Moves-modify}
use codex_post_office.Kernel.Authority.Call.{Call}
use codex_post_office.Kernel.Authority.Finalize.{Response}
use codex_post_office.Kernel.Authority.Untouched.{Untouched, Keeps-prepare, Keeps-finalize}
use codex_post_office.Kernel.Mutations.Mailboxes.{
  is_mailbox, insert_generation, by_generation, generations, max_generation, insert_mailbox,
  new_mailbox, rotate_from, rotate_generation,
}

-- each mailbox row, by its primary key
abbrev pub key : Mailbox → ℕ × ℕ
key m = (m.mailbox_id, m.generation)

abbrev pub keys_of : Hub → List (ℕ × ℕ)
keys_of h = map key h.mailboxes

-- every generation of the mailbox is below a number
abbrev pub all_below : ℕ → ℕ → List (ℕ × ℕ) → Bool
all_below id n [] = true
all_below id n ((i, g) ∷ rows) = (if i == id then ltb g n else true) && all_below id n rows

-- A row is added to the mailbox, with a generation above all that it has had.
abbrev pub IsRotated : ℕ → List (ℕ × ℕ) → List (ℕ × ℕ) → Type 0
IsRotated id xs ys = (n : ℕ) × (ys ≡ xs ++ (id, n) ∷ []) × (all_below id n xs ≡ true)

abbrev greater : ℕ → ℕ → ℕ
greater a b = if leb b a then a else b

greater-swap : (a b r : ℕ) → greater a (greater b r) ≡ greater b (greater a r)
greater-swap a b r = ground arith

max-insert :
    (m : Mailbox) (ms : List Mailbox)
    → max_generation (insert_generation m ms) ≡ greater m.generation (max_generation ms)
unfolding insert_generation
max-insert m [] = refl
max-insert m (o ∷ ms) = elim (Bool-cases (leb m.generation o.generation)) [
  | inl first ↦ rw first refl
  | inr later ↦ rw later (
      ap (greater o.generation) (max-insert m ms)
      ∙ greater-swap o.generation m.generation (max_generation ms))
]

max-sorted : (ms : List Mailbox) → max_generation (by_generation ms) ≡ max_generation ms
unfolding by_generation
max-sorted [] = refl
max-sorted (m ∷ ms) = max-insert m (by_generation ms) ∙ ap (greater m.generation) (max-sorted ms)

greater-below : (a b n : ℕ) → greater a b < n → (ltb a n ≡ true) × (b < n)
greater-below a b n h = ground (arith, h)

select-below :
    (id n : ℕ) (ms : List Mailbox)
    → max_generation (select (is_mailbox id) ms) < n
    → all_below id n (map key ms) ≡ true
select-below id n [] h = refl
select-below id n (m ∷ ms) h = elim (Bool-cases (is_mailbox id m)) [
  | inl mine ↦
      let (first, rest) =
        greater-below m.generation (max_generation (select (is_mailbox id) ms)) n (rw mine at h) in
      rw mine (rw first (select-below id n ms rest))
  | inr other ↦ rw other (select-below id n ms (rw other at h))
]

generations-below :
    (id : ℕ) (h : Hub) → all_below id (max_generation (generations h id) + 1) (keys_of h) ≡ true
unfolding generations
generations-below id h =
    select-below id _ h.mailboxes (ground (arith, max-sorted (select (is_mailbox id) h.mailboxes)))

untouched : Untouched keys_of
untouched = record {
  by_actions = λ h as'. refl;
  by_grants = λ h gs. refl;
  by_events = λ h es. refl;
}

Added : ℕ → ℕ → List (ℕ × ℕ) → List (ℕ × ℕ) → Type 0
Added id n xs ys = ys ≡ xs ++ (id, n) ∷ []

insert_mailbox-Moves :
    (id n domain e : ℕ) → Moves keys_of (Added id n) (insert_mailbox (new_mailbox id n domain e))
unfolding Added
insert_mailbox-Moves id n domain e = Moves-skip keys_of (Added id n) _ _ (Keeps-reading _ _) λ _.
    Moves-modify keys_of (Added id n) _ (λ h. map-snoc key h.mailboxes (new_mailbox id n domain e))

-- the rest of the rotation, once the generations are read
rotation-Moves :
    (sha256_json : Json → ℕ) (c : Call) (id reason : ℕ) (rows : List Mailbox)
    → Moves keys_of (Added id (max_generation rows + 1)) (rotate_from sha256_json c id reason rows)
unfolding rotate_from
rotation-Moves sha256_json c id reason rows =
    Moves-skip keys_of (Added id (max_generation rows + 1)) _ _ (Keeps-reading _ _) λ _.
      Moves-skip keys_of (Added id (max_generation rows + 1)) _ _ (Keeps-reading _ _) λ current.
        Moves-skip keys_of (Added id (max_generation rows + 1)) _ _ (Keeps-reading _ _) λ _.
          Moves-skip keys_of (Added id (max_generation rows + 1)) _ _ (Keeps-reading _ _) λ _.
            Moves-skip keys_of (Added id (max_generation rows + 1)) _ _ (Keeps-reading _ _) λ v.
              Moves-skip keys_of (Added id (max_generation rows + 1)) _ _ (Keeps-reading _ _) λ _.
                Moves-skip keys_of (Added id (max_generation rows + 1)) _ _
                  (Keeps-prepare _ untouched c _)
                  λ basis.
                    Moves-skip keys_of (Added id (max_generation rows + 1)) _ _
                      (Keeps-modify _ _ (λ h. map-update key _ _ h.mailboxes (λ m. refl)))
                      λ _.
                        Moves-then keys_of (Added id (max_generation rows + 1)) _ _
                          (insert_mailbox-Moves id (max_generation rows + 1) current.mail_domain
                            current.endpoint_id)
                          λ _. Keeps-bind _ _ _ (Keeps-reading _ _) λ _.
                            Keeps-finalize _ untouched sha256_json c basis _
                              (λ e h. map-update key _ _ h.mailboxes (λ m. refl))

-- A rotation that succeeds adds one row to the mailbox, whose generation is above every generation
-- that the mailbox has had, and leaves the keys of all other rows.
pub rotate_generation-IsRotated :
    (sha256_json : Json → ℕ) (c : Call) (id reason : ℕ) (h g : Hub) (r : Response)
    → rotate_generation sha256_json c id reason h ≡ ok (r, g)
    → IsRotated id (keys_of h) (keys_of g)
unfolding rotate_generation Added
rotate_generation-IsRotated sha256_json c id reason h g r done =
    (Moves-reading keys_of (IsRotated id) _ _ λ h1 rows is_rows b g1 e. (
      max_generation rows + 1,
      (rotation-Moves sha256_json c id reason rows).at h1 b g1 e,
      subst (λ n. all_below id n (keys_of h1) ≡ true)
          (ap (λ ms. max_generation ms + 1) {x = generations h1 id} {y = rows}
            (ground (arith, is_rows)))
          (generations-below id h1),
    )).at
      h r g done
