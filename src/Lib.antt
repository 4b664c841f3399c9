-- ===== src/Lib.antt =====
-- Verification of the backend of the commercialization platform: how a product is assembled and who may
-- do it. Paths are from the root of the repository; `core` stands for
-- platform/backend/internal/modules/assembly/core, `postgres` for
-- platform/backend/internal/modules/assembly/postgres, `workflow` for
-- platform/backend/internal/workflows/assemblyexecution.
--
-- A plan is confirmed and then started as a run. The run has a status and steps, and is stored as a row
-- with its JSON document. A worker leases the dispatch of the run and executes the workflow, which asks
-- the service to update the run with the next document. The service reads the stored run, checks that
-- the document evolves it, and hands a record to the repository, which writes it in one transaction with
-- an idempotency record and an event of the outbox.
--
-- Assembly.Model          core/model.go: statuses, steps, runs, plans, events
-- Assembly.Transition     `validTransition`, `validStepTransition` and the like of core/service.go
-- Assembly.Evolution      `validateRunEvolution`
-- Assembly.Document       `nextRunDocument` of workflow/service.go; `initialRunDocument`,
--                         `retryRunDocument`, `parseRunDocument` of core/service.go
-- Assembly.Evidence       `validateRunEvidence`
-- Assembly.Workflow       the transitions of `Execute` and `failRunWithEvidence`
-- Assembly.Store          postgres/repository.go: the tables (Rows), the schema's checks and triggers
--                         (Constraints), `StartRun`, `RetryRun`, `BindProduct`, `UpdateRun`, `CompleteRun`
--                         (Runs), `ConfirmPlan` and the reads (Plans), the queue of runs (Dispatches),
--                         the claims of the outbox with `fail` of
--                         platform/backend/cmd/server/audit_outbox.go (Outbox)
-- Assembly.Service        the commands of core/service.go: `ConfirmPlan`, `StartAssembly`, `RetryRun`,
--                         `BindProduct`, `UpdateRun`
-- Generation              platform/backend/internal/modules/assembly/generation: `mergeIntegrationRegion` and
--                         `createIntegrationFile` (Region), the tests on paths (Paths), `InspectTarget` (Inspect),
--                         `PrepareTarget` (Target), `Commit` with its rollback (Commit)
-- AccessControl           platform/backend/internal/modules/accesscontrol: the catalog of permissions,
--                         authorization, and the scopes that can be bound
-- Tenant                  platform/backend/internal/modules/tenant: the commands (Tenant), the repository
--                         (Store)
-- Product                 platform/backend/internal/modules/product: the commands (Service, with its tests in
--                         Checks), the repository (Store)
-- Prelude                 Boolean tests, results, lists, Go's 64-bit integers, Go's text functions
--
-- Functions of the source are functions here under the same names, in snake case; an error is a value,
-- and a struct is a record. A 64-bit integer is its bit pattern, and `+ 1` wraps; an instant is a number
-- of nanoseconds (the database keeps microseconds, which is not modelled), 0 being Go's zero time. JSON
-- documents are texts with their encoding and decoding as parameters, and so are SHA-256, the generator
-- of identifiers, the validator of documents by schema, the verifier of output targets and Unicode's case
-- folding. The files of a target are a list of paths with their bytes and modes; which operations of the file
-- system fail is an argument of the commit. The checks
-- and triggers of the schema on runs and steps are modelled, those on plans are not. Every loop is
-- structural recursion on a list, so that no fuel is needed.
--
-- Not modelled: failures of the database's connection; the creation of blueprints and plans, the
-- completion command and the checks of completed artifacts; the generator's renderer, its artifacts and the
-- store of them; what other processes do to the files of a target; the machine catalog; the listing and the outbox of
-- the products; applications, identity, the audit log; the HTTP transports, the server and the
-- administration client.
pub mod Prelude
pub mod AccessControl
pub mod Assembly
pub mod Generation
pub mod Product
pub mod Tenant
