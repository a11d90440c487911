-- ===== src/Base/Lists.antt =====
-- Lemmas on tables: the columns of the rows after an update and an insertion, and the row of a query
-- that has found one.
use codex_post_office.Base.Tests.{Bool-cases}
use codex_post_office.Base.Tables.{update, any}
use native.Mathlib.Omega.{arith}
use codex_post_office.Base.Outcome.{ok, Failure, found}
use mathlib.Core.Option.{Option, none, some}
use mathlib.Core.Path.{◌≡◌, refl, ap, sym, ◌∙◌}
use mathlib.Core.List.{Memᴰ}
use mathlib.Core.List.Memᴰ.{head, tail}
use mathlib.Core.Logic.{inl, inr}
use mathlib.Core.Bool.{Bool, true}
use mathlib.Core.List.{List, [], ◌∷◌, ◌++◌, map}

module _ {ℓ κ} {A : Type ℓ} {B : Type κ} (f : A → B) where
  pub map-update :
      (test : A → Bool) (u : A → A) (xs : List A)
      → ((x : A) → f (u x) ≡ f x)
      → map f (update test u xs) ≡ map f xs
  map-update test u [] same = refl
  map-update test u (x ∷ xs) same = elim (Bool-cases (test x)) [
    | inl mine ↦ rw mine (rw (same x) (ap (λ rest. f x ∷ rest) (map-update test u xs same)))
    | inr other ↦ rw other (ap (λ rest. f x ∷ rest) (map-update test u xs same))
  ]

  pub map-snoc : (xs : List A) (x : A) → map f (xs ++ x ∷ []) ≡ map f xs ++ f x ∷ []
  map-snoc [] x = refl
  map-snoc (y ∷ xs) x = ap (λ rest. f y ∷ rest) (map-snoc xs x)

pub found-some : {A : Type 0} (o : Option A) (x : Failure) (a : A) → found o x ≡ ok a → o ≡ some a
found-some none x a e = absurd (ground arith)
found-some (some b) x a e = ground arith

pub any-Mem :
    {A : Type 0} (test : A → Bool) (x : A) (xs : List A)
    → Memᴰ x xs
    → test x ≡ true
    → any test xs ≡ true
any-Mem test x [] m e = elim m [ ]
any-Mem test x (y ∷ ys) (head same) e =
    let mine : test y ≡ true = ap test (sym same) ∙ e in rw mine refl
any-Mem test x (y ∷ ys) (tail m) e = let rest = any-Mem test x ys m e in ground (arith, rest)
