-- ===== src/Base/Outcome.antt =====
-- The public diagnostics of diagnostics.py, and a step that may raise one.
use mathlib.Core.Bool.{Bool, true, false}
use mathlib.Core.Option.{Option, none, some}

-- The keys of `DIAGNOSTICS`, without their prefix.
pub data Code : Type 0 where
  contract_invalid contract_fixture_unexpected input_invalid path_not_found : Code
  output_exists path_conflict legacy_schema_unsupported snapshot_source_changed : Code
  snapshot_integrity_failure reconciliation_ambiguous reconciliation_hash_mismatch : Code
  reconciliation_duplicate reconciliation_orphan production_mutation_forbidden : Code
  database_invalid migration_mismatch kernel_not_bootstrapped kernel_already_bootstrapped : Code
  credential_invalid authentication_failed authorization_denied idempotency_conflict : Code
  operation_not_implemented concurrency_conflict custody_not_verified : Code
  observation_mismatch rate_limited internal_error : Code

-- What ends a step early: a `PostOfficeError` with its code, or the database's refusal of a write
-- (`sqlite3.IntegrityError`).
pub data Failure : Type 0 where
  raised : Code → Failure
  integrity_error : Failure

pub data Result {ℓ} (A : Type ℓ) : Type ℓ where
  ok : A → Result A
  err : Failure → Result A

abbrev pub is_ok {ℓ} : {A : Type ℓ} → Result A → Bool
is_ok (ok _) = true
is_ok (err _) = false

-- `if not test: raise`
abbrev pub check : Bool → Failure → Result (Unit {0})
check true e = ok tt
check false e = err e

-- the row that a query found, or the failure
abbrev pub found {ℓ} : {A : Type ℓ} → Option A → Failure → Result A
found (some a) e = ok a
found none e = err e

-- the rest of a computation that goes on unless the first part raises
abbrev pub then_with {ℓ κ} : {A : Type ℓ} {B : Type κ} → Result A → (A → Result B) → Result B
then_with (ok a) f = f a
then_with (err e) f = err e
