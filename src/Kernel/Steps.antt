-- ===== src/Kernel/Steps.antt =====
-- What a step of a transaction does to a part of the hub, and when it cannot succeed.
use codex_post_office.Base.{
  ◌≡◌, refl, ◌∙◌, ap, sym, false, Result, ok, err, Failure, arith, is_ok, ◌⊎◌, inl, inr,
}
use codex_post_office.Hub.{Hub}
use codex_post_office.Kernel.Transaction.{lifted, Tx, after, ◌>>=◌, pure, reading, raise, modify}
use codex_post_office.Kernel.Grows.{>>=-ok, reading-ok}
use mathlib.Core.Path.{subst}

-- A step that leaves a part of the hub alone.
pub record Keeps {T A : Type 0} (part : Hub → T) (m : Tx A) : Type 0 where
  pub at : (h : Hub) (a : A) (g : Hub) → m h ≡ ok (a, g) → part g ≡ part h

module _ {T : Type 0} (part : Hub → T) where
  pub Keeps-pure : {A : Type 0} (a : A) → Keeps part (pure a)
  unfolding pure
  Keeps-pure a = record { at = λ h b g e. ap part (ground arith) }

  pub Keeps-raise : {A : Type 0} (x : Failure) → Keeps part (raise {A = A} x)
  unfolding raise
  Keeps-raise x = record { at = λ h b g e. absurd (ground arith) }

  pub Keeps-reading : {A : Type 0} (f : Hub → Result A) → Keeps part (reading f)
  Keeps-reading f = record { at = λ h a g e. ap part (reading-ok f h e).1 }

  pub Keeps-modify : (f : Hub → Hub) → ((h : Hub) → part (f h) ≡ part h) → Keeps part (modify f)
  unfolding modify
  Keeps-modify f keeps = record { at = λ h a g e. ap part (ground arith) ∙ keeps h }

  pub Keeps-bind :
      {A B : Type 0} (m : Tx A) (f : A → Tx B)
      → Keeps part m
      → ((a : A) → Keeps part (f a))
      → Keeps part (m >>= f)
  Keeps-bind m f km kf = record {
    at = λ h b k e. let (a, g, p, q) = >>=-ok m f h e in (kf a).at g b k q ∙ km.at h a g p;
  }

-- A step whose results meet a predicate.
pub record Gives {A : Type 0} (P : A → Type 0) (m : Tx A) : Type 0 where
  pub at : (h : Hub) (a : A) (g : Hub) → m h ≡ ok (a, g) → P a

module _ {A : Type 0} (P : A → Type 0) where
  pub Gives-pure : (a : A) → P a → Gives P (pure a)
  unfolding pure
  Gives-pure a p = record { at = λ h b g e. subst P (ground arith) p }

  pub Gives-raise : (x : Failure) → Gives P (raise x)
  unfolding raise
  Gives-raise x = record { at = λ h b g e. absurd (ground arith) }

  pub Gives-bind :
      {B : Type 0} (m : Tx B) (f : B → Tx A) → ((b : B) → Gives P (f b)) → Gives P (m >>= f)
  Gives-bind m f gf = record {
    at = λ h b k e. let (a, g, p, q) = >>=-ok m f h e in (gf a).at g b k q;
  }

-- A step after which a part of the hub meets a predicate.
pub record Ends {T A : Type 0} (part : Hub → T) (P : T → Type 0) (m : Tx A) : Type 0 where
  pub at : (h : Hub) (a : A) (g : Hub) → m h ≡ ok (a, g) → P (part g)

-- A step that cannot succeed where a part of the hub meets a predicate.
pub record Blocked {T A : Type 0} (part : Hub → T) (P : T → Type 0) (m : Tx A) : Type 0 where
  pub at : (h : Hub) → P (part h) → is_ok (m h) ≡ false

-- A result is a success or a failure.
pub Result-cases : {A : Type 0} (r : Result A) → ((a : A) × (r ≡ ok a)) ⊎ (is_ok r ≡ false)
Result-cases (ok a) = inl (a, refl)
Result-cases (err e) = inr refl

pub after-err :
    {A B : Type 0} (r : Result (A × Hub)) (f : A → Tx B)
    → is_ok r ≡ false
    → is_ok (after r f) ≡ false
after-err (ok x) f h = absurd (ground arith)
after-err (err e) f h = refl

module _ {T : Type 0} (part : Hub → T) (P : T → Type 0) {A B : Type 0} (m : Tx A)
    (f : A → Tx B) where
  pub Ends-bind : ((a : A) → Ends part P (f a)) → Ends part P (m >>= f)
  Ends-bind ef = record { at = λ h b k e. let (a, g, p, q) = >>=-ok m f h e in (ef a).at g b k q }

  pub Ends-then : Ends part P m → ((a : A) → Keeps part (f a)) → Ends part P (m >>= f)
  Ends-then em kf = record {
    at = λ h b k e.
        let (a, g, p, q) = >>=-ok m f h e in subst P (sym ((kf a).at g b k q)) (em.at h a g p);
  }

  pub Ends-Gives :
      (Q : A → Type 0) → Gives Q m → ((a : A) → Q a → Ends part P (f a)) → Ends part P (m >>= f)
  Ends-Gives Q gm ef = record {
    at = λ h b k e. let (a, g, p, q) = >>=-ok m f h e in (ef a (gm.at h a g p)).at g b k q;
  }

  pub Blocked-here : Blocked part P m → Blocked part P (m >>= f)
  unfolding ◌>>=◌
  Blocked-here bm = record { at = λ h p. after-err (m h) f (bm.at h p) }

  pub Blocked-later : Keeps part m → ((a : A) → Blocked part P (f a)) → Blocked part P (m >>= f)
  unfolding ◌>>=◌
  Blocked-later km bf = record {
    at = λ h p. elim (Result-cases (m h)) [
      | inl ((a, g), e) ↦ rw e ((bf a).at g (subst P (sym (km.at h a g e)) p))
      | inr failed ↦ after-err (m h) f failed
    ];
  }

-- The step that cannot succeed may rely on what the first one gives.
pub Blocked-Gives :
    {T A B : Type 0} (part : Hub → T) (P : T → Type 0) (m : Tx A) (f : A → Tx B) (Q : A → Type 0)
    → Gives Q m
    → Keeps part m
    → ((a : A) → Q a → Blocked part P (f a))
    → Blocked part P (m >>= f)
unfolding ◌>>=◌
Blocked-Gives part P m f Q gm km bf = record {
  at = λ h p. elim (Result-cases (m h)) [
    | inl ((a, g), e) ↦ rw e ((bf a (gm.at h a g e)).at g (subst P (sym (km.at h a g e)) p))
    | inr failed ↦ after-err (m h) f failed
  ];
}

-- A step that starts by reading has read something, and goes on from the same hub.
pub read-then :
    {A B C : Type 0} (query : Hub → Result A) (f : A → Tx B) (h : Hub) {b : B} {g : Hub}
    → (reading query >>= f) h ≡ ok (b, g)
    → ((a : A) → query h ≡ ok a → f a h ≡ ok (b, g) → C)
    → C
unfolding ◌>>=◌
read-then query f h e go = elim (Result-cases (query h)) [
  | inl (a, p) ↦ go a p (rw p at e)
  | inr failed ↦ absurd (failed_read (query h) f h failed e)
]
  where
    failed_read :
        {A B : Type 0} (r : Result A) (f : A → Tx B) (h : Hub) {b : B} {g : Hub}
        → is_ok r ≡ false
        → after (lifted r h) f ≡ ok (b, g)
        → ⊥
    failed_read (ok a) f h failed e = ground arith
    failed_read (err x) f h failed e = ground arith
