-- ===== src/Lib.antt =====
-- Codex Post Office: the operational kernel of the hub, and its transport runtime.
--
-- The hub is one SQLite database in which projects, tasks, endpoints and mailboxes are kept, and
-- every mutation of it is an operation with a capability, an authority basis and an event. The
-- modules model kernel.py, runtime.py and a part of canonical.py, which stand under
-- plugins/post-office-next/scripts/post_office/:
--
--   Base      shared types: tests on numbers and texts, tables as lists of rows, JSON documents,
--             the codes of diagnostics.py and the results of code that may raise
--   Canonical `merkle_root`, with a module on the tree behind the root
--   Hub       the tables and their rows, and the vocabularies of the status columns
--             (plugins/post-office-next/database/migrations)
--   Kernel.Transaction, Kernel.Grows, Kernel.Steps, Kernel.Moves
--             a step of a write transaction, and judgements on such steps: what they do to the
--             event log, which parts of the hub they keep, how they change a part, and when
--             they cannot succeed
--   Kernel.Events      `append_hub_event`, `_aggregate_position`, `assert_aggregate_concurrency` and
--             `_validate_hub_event_chain`
--   Kernel.Documents   the documents behind the aggregate roots (`_task_state` and its like)
--   Kernel.Authority   `_authenticate`, the scopes, `_prepare_mutation_authority`,
--             `_consume_grant_authority` and `_finalize_mutation`; Permitted says of the rows alone
--             what an authority basis is, and Permits that only such calls obtain one
--   Kernel.Mutations   the handlers of `_execute_mutation`, a module for each family of operations;
--             Judgements and Orderly judge what the handlers do to the event log and the authority;
--             Guarded, Lifecycle, MessageLifecycle, Custody, Discrepancies, Resolution, Preview,
--             Rotation and TransportStates are
--             about what they require and change
--   Kernel.Projections  `_validate_kernel_projections`
--   Kernel.Operation   `execute_operation` for the mutations, with `_open_writer`
--   Runtime   `_courier`, `_attention`, `claim_next_transport`, `complete_transport`, and the part
--             of `reconcile_transport` that treats leases
--   Examples  runs at concrete inputs
--
-- How the code is represented. The hub is a record of tables, and a handler is a function from a
-- hub to a failure or a result with a new hub: an exception rolls the transaction back, so a failure
-- carries no hub. A failure is a diagnostic code or the database's refusal of a write
-- (`integrity_error`); an exception of another kind, which the foreign keys exclude, is the code
-- `internal_error`. The UNIQUE and CHECK constraints that a handler can meet are written out at its
-- writes; foreign keys are represented where a row that is named can be missing: the mail domains of
-- a project, and what a registered message names. Identifiers, digests, free texts and instants are
-- natural numbers, which the code only compares; instants count microseconds and are compared as instants. Operations, roles and aggregate types are
-- texts. An optional prefix `sha256:` of a digest is left out. `uuid4` is a function of the call
-- that gives an identifier for each draw. The digest of a document, the digest of a secret, the
-- digest of two digests, the identifiers that are digests of others, the test for secrets in a
-- reference, and the order of texts are parameters: hashlib and SQLite are not part of the repository, and no property relies on the absence of collisions.
--
-- The operations of runtime.py are modelled from the point at which `_open_writer` has accepted the
-- database; `execute_operation` includes it. The tests of the file itself (migrations, schema, pragmas:
-- `validate_operational_connection`) are one flag of the store. Leases are compared as instants,
-- where the code compares their texts.
--
-- Every loop is structural recursion on the rows that it visits, but for the chain of retried
-- attempts (`_resolve_superseded_transport_attention`), which the code itself bounds by 32 rounds;
-- the model runs it on a fuel of 32, and for the rounds of `merkle_root`, whose fuel is the number of
-- the entries after the first.
--
-- Not modelled: the read operations; the validation of requests and results against their
-- contracts; the bootstrap of the kernel; the path guards of canonical.py; the creation of
-- dispatches; automatic reviews and continuations; and, as file-system or database tooling: manifests
-- and archives, snapshots, migration, the command line and the client scripts.

pub mod Base
pub mod Canonical
pub mod Hub
pub mod Kernel
pub mod Runtime
pub mod Examples
