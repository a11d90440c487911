-- ===== src/Kernel/Transaction.antt =====
-- A step of a write transaction: it reads and writes the hub and may raise. Every entry point
-- rolls back when an exception passes it, so a step that raises leaves no state behind.
use codex_post_office.Base.{Bool, Option, Result, ok, err, Failure, check, found}
use codex_post_office.Hub.{Hub}

abbrev pub Tx : Type 0 → Type 0
Tx A = Hub → Result (A × Hub)

abbrev pub after : {A B : Type 0} → Result (A × Hub) → (A → Tx B) → Result (B × Hub)
after (ok (a, h)) f = f a h
after (err e) f = err e

module _ {A : Type 0} where
  unfoldable pub pure : A → Tx A
  pure a h = ok (a, h)

  abbrev pub lifted : Result A → Hub → Result (A × Hub)
  lifted (ok a) h = ok (a, h)
  lifted (err e) h = err e

  -- A computation that only reads the hub.
  unfoldable pub reading : (Hub → Result A) → Tx A
  reading f h = lifted (f h) h

  unfoldable pub raise : Failure → Tx A
  raise e h = err e

  -- the row of a query, or the failure
  abbrev pub row : (Hub → Option A) → Failure → Tx A
  row query e = reading (λ h. found (query h) e)

abbrev pub require : (Hub → Bool) → Failure → Tx (Unit {0})
require test e = reading (λ h. check (test h) e)

unfoldable pub modify : (Hub → Hub) → Tx (Unit {0})
modify f h = ok (tt, f h)

-- Opening the bind opens the steps above.
infixl 5 ◌>>=◌ ◌>>◌
unfoldable pub ◌>>=◌ : {A B : Type 0} → Tx A → (A → Tx B) → Tx B
unfolding pure reading raise modify
◌>>=◌ m f h = after (m h) f

abbrev pub ◌>>◌ : {A B : Type 0} → Tx A → Tx B → Tx B
m >> k = m >>= λ _. k
