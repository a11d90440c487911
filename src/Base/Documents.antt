-- ===== src/Base/Documents.antt =====
-- The JSON documents that the program hashes. Identifiers, digests and free texts are numbers.
use Prim.Native.Nat.{ℕ}
use Prim.Native.String.{String}
use mathlib.Core.Bool.{Bool}
use mathlib.Core.Option.{Option, none, some}
use mathlib.Core.List.{List, [], ◌∷◌}

mutual
  pub data Json : Type 0 where
    null : Json
    num : ℕ → Json
    str : String → Json
    truth : Bool → Json
    list : Items → Json
    object : Fields → Json

  pub data Items : Type 0 where
    no_items : Items
    item : Json → Items → Items

  pub data Fields : Type 0 where
    no_fields : Fields
    field : String → Json → Fields → Fields

abbrev pub items : List Json → Items
items [] = no_items
items (x ∷ xs) = item x (items xs)

abbrev pub fields : List (String × Json) → Fields
fields [] = no_fields
fields ((k, v) ∷ xs) = field k v (fields xs)

abbrev pub arr : List Json → Json
arr xs = list (items xs)

abbrev pub obj : List (String × Json) → Json
obj xs = object (fields xs)

abbrev pub opt : Option ℕ → Json
opt none = null
opt (some n) = num n

abbrev pub nums : List ℕ → List Json
nums [] = []
nums (n ∷ ns) = num n ∷ nums ns
