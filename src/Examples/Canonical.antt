-- ===== src/Examples/Canonical.antt =====
-- A run of merkle_root.
use codex_post_office.Base.{ℕ, ◌≡◌, some, [], ◌∷◌, map, num}
use codex_post_office.Canonical.{merkle_root}
use codex_post_office.Canonical.Merkle.{Root, fringe, root_of, merkle_root-tree}
use codex_post_office.Examples.Data.{digest, mix}

-- three entries, the last of which has no neighbour
merkle_root-tree_example :
    (d : ℕ) × (t : Root d) × (merkle_root mix digest 9 (num 1 ∷ num 2 ∷ num 3 ∷ [])
      ≡ some (root_of mix t))
    × (fringe t ≡ map digest (num 1 ∷ num 2 ∷ num 3 ∷ []))
merkle_root-tree_example = merkle_root-tree mix digest 9 (num 1) (num 2 ∷ num 3 ∷ [])
