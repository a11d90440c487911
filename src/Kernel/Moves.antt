-- ===== src/Kernel/Moves.antt =====
-- What a step does to a part of the hub, as a relation between the part before and after it.
use codex_post_office.Base.{◌≡◌, Bool, true, Result, ok, Failure, check, arith}
use mathlib.Core.Path.{subst, sym}
use codex_post_office.Hub.{Hub}
use codex_post_office.Kernel.Transaction.{Tx, require, reading, modify, ◌>>=◌}
use codex_post_office.Kernel.Grows.{>>=-ok, reading-ok}
use codex_post_office.Kernel.Steps.{Keeps}

pub record Moves {T A : Type 0} (part : Hub → T) (R : T → T → Type 0) (m : Tx A) : Type 0 where
  pub at : (h : Hub) (a : A) (g : Hub) → m h ≡ ok (a, g) → R (part h) (part g)

check-true : (b : Bool) (x : Failure) (u : Unit {0}) → check b x ≡ ok u → b ≡ true
check-true b x u e = ground (arith, e)

module _ {T : Type 0} (part : Hub → T) (R : T → T → Type 0) where
  pub Moves-skip :
      {A B : Type 0} (m : Tx A) (f : A → Tx B)
      → Keeps part m
      → ((a : A) → Moves part R (f a))
      → Moves part R (m >>= f)
  Moves-skip m f km mf = record {
    at = λ h b k e.
        let (a, g, p, q) = >>=-ok m f h e in
        subst (λ t. R t (part k)) (km.at h a g p) ((mf a).at g b k q);
  }

  -- What a reading has found holds in the rest.
  pub Moves-reading :
      {A B : Type 0} (query : Hub → Result A) (f : A → Tx B)
      → ((h : Hub) (a : A)
          → query h ≡ ok a
          → (b : B) (g : Hub) → f a h ≡ ok (b, g)
          → R (part h) (part g))
      → Moves part R (reading query >>= f)
  Moves-reading query f mf = record {
    at = λ h b k e.
        let (a, g, p, q) = >>=-ok (reading query) f h e in
        let (r, same) = reading-ok query h p in
        mf h a r b k (subst (λ o. f a o ≡ ok (b, k)) same q);
  }

  -- What a test has shown holds in the rest.
  pub Moves-guard :
      {B : Type 0} (b : Bool) (x : Failure) (f : Unit {0} → Tx B)
      → (b ≡ true → Moves part R (f tt))
      → Moves part R (require (λ _. b) x >>= f)
  Moves-guard b x f mf =
      Moves-reading (λ _. check b x) f λ h u r c g e. (mf (check-true b x u r)).at h c g e

  -- What a test on the hub has shown holds of it.
  pub Moves-require :
      {B : Type 0} (test : Hub → Bool) (x : Failure) (f : Unit {0} → Tx B)
      → ((h : Hub) → test h ≡ true → (b : B) (g : Hub) → f tt h ≡ ok (b, g) → R (part h) (part g))
      → Moves part R (require test x >>= f)
  Moves-require test x f mf =
      Moves-reading (λ h. check (test h) x) f λ h u r b g e. mf h (check-true (test h) x u r) b g e

  pub Moves-then :
      {A B : Type 0} (m : Tx A) (f : A → Tx B)
      → Moves part R m
      → ((a : A) → Keeps part (f a))
      → Moves part R (m >>= f)
  Moves-then m f mm kf = record {
    at = λ h b k e.
        let (a, g, p, q) = >>=-ok m f h e in
        subst (λ t. R (part h) t) (sym ((kf a).at g b k q)) (mm.at h a g p);
  }

  pub Moves-modify :
      (f : Hub → Hub) → ((h : Hub) → R (part h) (part (f h))) → Moves part R (modify f)
  unfolding modify
  Moves-modify f moves = record {
    at = λ h a g e. subst (λ o. R (part h) (part o)) (ground arith) (moves h);
  }

-- One step after another, each with a relation of its own.
pub Moves-bind :
    {T A B : Type 0} (part : Hub → T) (R S Q : T → T → Type 0) (m : Tx A) (f : A → Tx B)
    → ((x y z : T) → R x y → S y z → Q x z)
    → Moves part R m
    → ((a : A) → Moves part S (f a))
    → Moves part Q (m >>= f)
Moves-bind part R S Q m f both mm mf = record {
  at = λ h b k e.
      let (a, g, p, q) = >>=-ok m f h e in
      both (part h) (part g) (part k) (mm.at h a g p) ((mf a).at g b k q);
}
