-- ===== src/Canonical.antt =====
-- merkle_root of plugins/post-office-next/scripts/post_office/canonical.py.
pub mod Merkle
use codex_post_office.Base.{
  ℕ, zero, suc, ◌%◌, Option, none, some, List, [], ◌∷◌, ◌++◌, map, length, ◌==◌, if◌then◌else◌,
  Json,
}
use mathlib.Core.Option as Option

-- `leaves[-1]`, if there is one
abbrev pub last_of : List ℕ → List ℕ
last_of [] = []
last_of (a ∷ []) = a ∷ []
last_of (a ∷ b ∷ rest) = last_of (b ∷ rest)

-- `if len(leaves) % 2: leaves.append(leaves[-1])`
abbrev pub padded : List ℕ → List ℕ
padded xs = if length xs % 2 == 1 then xs ++ last_of xs else xs

-- `sha256_bytes(bytes.fromhex(left) + bytes.fromhex(right))` is a parameter, `join`.
module _ (join : ℕ → ℕ → ℕ) where
  -- The comprehension over `range(0, len(leaves), 2)`; a leaf without a right neighbour would raise
  -- an IndexError.
  unfoldable pub level : List ℕ → Option (List ℕ)
  level [] = some []
  level (a ∷ []) = none
  level (a ∷ b ∷ rest) = Option.map (λ above. join a b ∷ above) (level rest)

  -- The loop, on fuel, and `leaves[0]`.
  unfoldable pub merkle_loop : ℕ → List ℕ → Option ℕ
  unfolding level
  merkle_loop fuel [] = none
  merkle_loop fuel (a ∷ []) = some a
  merkle_loop zero (a ∷ b ∷ rest) = none
  merkle_loop (suc fuel) (a ∷ b ∷ rest) =
      Option.bind (level (padded (a ∷ b ∷ rest))) (merkle_loop fuel)

  -- The digest of no bytes and that of an entry are parameters too. There are no more rounds than
  -- entries.
  unfoldable pub merkle_root : (Json → ℕ) → ℕ → List Json → Option ℕ
  unfolding merkle_loop
  merkle_root sha256_json empty [] = some empty
  merkle_root sha256_json empty (e ∷ entries) =
      merkle_loop (length entries) (map sha256_json (e ∷ entries))
