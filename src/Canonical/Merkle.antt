-- ===== src/Canonical/Merkle.antt =====
-- The tree whose digest is the root that merkle_root returns.
use codex_post_office.Base.{
  ℕ, zero, suc, ◌%◌, ◌≤◌, ◌<◌, ◌≡◌, refl, ◌∙◌, ap, sym, true, false, some, List, [], ◌∷◌, ◌++◌, map,
  length, ◌==◌, Json, Bool-cases, inl, inr, arith,
}
use codex_post_office.Canonical.{padded, level, merkle_loop, merkle_root}
use mathlib.Core.Option as Option
use mathlib.Core.List.{append_assoc}

-- A tree of a given height in which every node has two subtrees.
pub data Full : ℕ → Type 0 where
  leaf : ℕ → Full 0
  node : {d : ℕ} → Full d → Full d → Full (suc d)

-- A tree of a given height that is filled from the left: below a node the left subtree is full, and
-- only the last subtree of a height can be without a neighbour, `alone`; it is joined with itself.
pub data Filled : ℕ → Type 0 where
  leaf : ℕ → Filled 0
  node : {d : ℕ} → Full d → Filled d → Filled (suc d)
  alone : {d : ℕ} → Filled d → Filled (suc d)

-- The whole tree is a leaf or has two subtrees.
pub data Root : ℕ → Type 0 where
  leaf : ℕ → Root 0
  node : {d : ℕ} → Full d → Filled d → Root (suc d)

-- the leaves, from the left
abbrev pub full_fringe : {d : ℕ} → Full d → List ℕ
full_fringe (Full.leaf a) = a ∷ []
full_fringe (Full.node t u) = full_fringe t ++ full_fringe u

abbrev pub filled_fringe : {d : ℕ} → Filled d → List ℕ
filled_fringe (Filled.leaf a) = a ∷ []
filled_fringe (Filled.node t u) = full_fringe t ++ filled_fringe u
filled_fringe (Filled.alone t) = filled_fringe t

abbrev pub fringe : {d : ℕ} → Root d → List ℕ
fringe (Root.leaf a) = a ∷ []
fringe (Root.node t u) = full_fringe t ++ filled_fringe u

-- the digest at the top
abbrev pub full_digest : (ℕ → ℕ → ℕ) → {d : ℕ} → Full d → ℕ
full_digest join (Full.leaf a) = a
full_digest join (Full.node t u) = join (full_digest join t) (full_digest join u)

abbrev pub filled_digest : (ℕ → ℕ → ℕ) → {d : ℕ} → Filled d → ℕ
filled_digest join (Filled.leaf a) = a
filled_digest join (Filled.node t u) = join (full_digest join t) (filled_digest join u)
filled_digest join (Filled.alone t) = join (filled_digest join t) (filled_digest join t)

abbrev pub root_of : (ℕ → ℕ → ℕ) → {d : ℕ} → Root d → ℕ
root_of join (Root.leaf a) = a
root_of join (Root.node t u) = join (full_digest join t) (filled_digest join u)

-- One level of the loop: full trees, and the last one.
data Forest : ℕ → Type 0 where
  last : {d : ℕ} → Filled d → Forest d
  more : {d : ℕ} → Full d → Forest d → Forest d

abbrev fringes : {d : ℕ} → Forest d → List ℕ
fringes (last t) = filled_fringe t
fringes (more t ts) = full_fringe t ++ fringes ts

-- the trees of the next level
abbrev grown : {d : ℕ} → Forest d → Forest (suc d)
grown (last t) = last (Filled.alone t)
grown (more t (last u)) = last (Filled.node t u)
grown (more t (more u ts)) = more (Full.node t u) (grown ts)

-- how many trees there are before the last one
abbrev size : {d : ℕ} → Forest d → ℕ
size (last t) = 0
size (more t ts) = suc (size ts)

grown-fringes : {d : ℕ} (ts : Forest d) → fringes (grown ts) ≡ fringes ts
grown-fringes (last t) = refl
grown-fringes (more t (last u)) = refl
grown-fringes (more t (more u ts)) =
    append_assoc (full_fringe t) (full_fringe u) (fringes (grown ts))
    ∙ ap (λ rest. full_fringe t ++ (full_fringe u ++ rest)) (grown-fringes ts)

size-grown : {d : ℕ} (ts : Forest d) → size (grown ts) ≤ size ts
size-grown (last t) = omega arith
size-grown (more t (last u)) = omega arith
size-grown (more t (more u ts)) = omega (arith, size-grown ts)

abbrev leaves_of : ℕ → List ℕ → Forest 0
leaves_of a [] = last (Filled.leaf a)
leaves_of a (b ∷ bs) = more (Full.leaf a) (leaves_of b bs)

fringes-leaves : (a : ℕ) (xs : List ℕ) → fringes (leaves_of a xs) ≡ a ∷ xs
fringes-leaves a [] = refl
fringes-leaves a (b ∷ xs) = ap (λ rest. a ∷ rest) (fringes-leaves b xs)

size-leaves : (a : ℕ) (xs : List ℕ) → size (leaves_of a xs) ≡ length xs
size-leaves a [] = refl
size-leaves a (b ∷ xs) = ap suc (size-leaves b xs)

length-map : (f : Json → ℕ) (xs : List Json) → length (map f xs) ≡ length xs
length-map f [] = refl
length-map f (x ∷ xs) = ap suc (length-map f xs)

module _ (join : ℕ → ℕ → ℕ) where
  abbrev roots : {d : ℕ} → Forest d → List ℕ
  roots (last t) = filled_digest join t ∷ []
  roots (more t ts) = full_digest join t ∷ roots ts

  roots-leaves : (a : ℕ) (xs : List ℕ) → roots (leaves_of a xs) ≡ a ∷ xs
  roots-leaves a [] = refl
  roots-leaves a (b ∷ xs) = ap (λ rest. a ∷ rest) (roots-leaves b xs)

  padded-more : (a b : ℕ) (xs : List ℕ) → padded (a ∷ b ∷ xs) ≡ a ∷ b ∷ padded xs
  padded-more a b [] = refl
  padded-more a b (c ∷ xs) = elim (Bool-cases (length (c ∷ xs) % 2 == 1)) [
    | inl odd ↦
        let odd' : (length (a ∷ b ∷ c ∷ xs) % 2 == 1) ≡ true = ground (arith, odd) in
        rw (odd, odd') refl
    | inr even ↦
        let even' : (length (a ∷ b ∷ c ∷ xs) % 2 == 1) ≡ false = ground (arith, even) in
        rw (even, even') refl
  ]

  -- A round of the loop never raises, and replaces the trees of a level by those of the next.
  level-grown : {d : ℕ} (ts : Forest d) → level join (padded (roots ts)) ≡ some (roots (grown ts))
  unfolding level
  level-grown (last t) = refl
  level-grown (more t (last u)) = refl
  level-grown (more t (more u ts)) =
      ap (level join) (padded-more (full_digest join t) (full_digest join u) (roots ts))
      ∙ ap (Option.map (λ above. join (full_digest join t) (full_digest join u) ∷ above))
          (level-grown ts)

  round :
      {d : ℕ} (fuel : ℕ) (t : Full d) (ts : Forest d)
      → merkle_loop join (suc fuel) (roots (more t ts))
        ≡ merkle_loop join fuel (roots (grown (more t ts)))
  unfolding merkle_loop Option.bind
  round fuel t (last u) =
      ap (λ o. Option.bind o (merkle_loop join fuel)) (level-grown (more t (last u)))
  round fuel t (more u ts) =
      ap (λ o. Option.bind o (merkle_loop join fuel)) (level-grown (more t (more u ts)))

  loop-tree :
      {d : ℕ} (fuel : ℕ) (t : Full d) (ts : Forest d)
      → size ts < fuel
      → (e : ℕ) × (r : Root e) × (merkle_loop join fuel (roots (more t ts)) ≡ some (root_of join r))
        × (fringe r ≡ fringes (more t ts))
  unfolding merkle_loop
  loop-tree zero t ts enough = absurd (omega arith)
  loop-tree {d = d} (suc fuel) t (last u) enough =
      (suc d, Root.node t u, round fuel t (last u), refl)
  loop-tree (suc fuel) t (more u ts) enough =
      let (e, r, runs, same) =
        loop-tree fuel (Full.node t u) (grown ts) (omega (arith, size-grown ts)) in
      (e, r, round fuel t (more u ts) ∙ runs, same ∙ grown-fringes (more t (more u ts)))

  -- The loop on digests, with as many rounds as there are digests after the first.
  digests-tree :
      (fuel x : ℕ) (xs : List ℕ)
      → length xs ≤ fuel
      → (d : ℕ) × (t : Root d) × (merkle_loop join fuel (x ∷ xs) ≡ some (root_of join t))
        × (fringe t ≡ x ∷ xs)
  unfolding merkle_loop
  digests-tree fuel x [] enough = (0, Root.leaf x, refl, refl)
  digests-tree fuel x (y ∷ ys) enough =
      let (d, t, runs, same) =
        loop-tree fuel (Full.leaf x) (leaves_of y ys) (omega (arith, size-leaves y ys)) in
      (
        d,
        t,
        ap (λ zs. merkle_loop join fuel (x ∷ zs)) (sym (roots-leaves y ys)) ∙ runs,
        same ∙ ap (λ zs. x ∷ zs) (fringes-leaves y ys),
      )

-- For any entries, of which there is at least one, the loop ends and raises nothing: the root is that
-- of a tree whose leaves are the digests of the entries in their order, that is filled from the left,
-- and in which only the last subtree of a height, where it has no neighbour, is joined with itself.
pub merkle_root-tree :
    (join : ℕ → ℕ → ℕ) (sha256_json : Json → ℕ) (empty : ℕ) (e : Json) (entries : List Json)
    → (d : ℕ) × (t : Root d) × (merkle_root join sha256_json empty (e ∷ entries)
        ≡ some (root_of join t))
      × (fringe t ≡ map sha256_json (e ∷ entries))
unfolding merkle_root
merkle_root-tree join sha256_json empty e entries =
    digests-tree join (length entries) (sha256_json e) (map sha256_json entries)
      (omega (arith, length-map sha256_json entries))
