-- ===== src/Lib.antt =====
-- The bill service (package bill): bills that accrue line items, each backed by a Temporal
-- workflow, with their rows and an audit log in Postgres. This library models the service's own
-- code; the libraries it calls are interfaces or arguments.
--
-- How the parts work together. A request passes `AuthHandler` (bill/auth.go), for a mutating
-- endpoint the middleware (bill/middleware.go), and reaches an endpoint (bill/endpoints.go). The
-- endpoint starts, queries, updates or signals the workflow of the bill (bill/workflow.go), which
-- keeps the running summary and writes to the database only through three activities
-- (bill/activities.go). Where there is no workflow any more, the endpoints read the database.
--
-- Files:
--   Prelude    shared names, Boolean tests, lists, sets of texts (Prelude/Tests, Prelude/Lists,
--              Prelude/Sets)
--   Errs       `errs.Error` and the results of fallible functions
--   Money      `decimal.Decimal` and the Postgres column types, as interfaces with documented laws:
--              addition, signs, how a text is read as a UUID and a value rounded to NUMERIC(30, 10)
--   Models     bill/models.go, bill/signals.go and the inputs of bill/activities.go
--   Store      the tables of bill/migrations as lists of rows; Store/Statements: the statements that
--              the activities run, with the constraints of the migrations; Store/Inversion and
--              Store/Tables: what a statement that succeeds has done; Store/Reads: how a request's
--              queries go and their rows are read; Store/Seed: the tables of a new database
--   Keyset     the row order and the keyset queries of the list endpoints (ORDER BY, LIMIT, the row
--              comparison). Below it: Texts and Order (the order is strict and total), Sorting,
--              Selected (the sorted selection of a table), Walk (a client that follows cursors)
--   Service    bill/service.go and `setCurrencies` of bill/registry.go: the start and the shutdown as
--              the calls they make; Service/Lifecycle: what is held meanwhile
--   Activities bill/activities.go and the counters of bill/metrics.go: `CreateBillActivity`,
--              `AppendLineItemActivity`, `CloseBillActivity`, `appendEvent`, `inTx`. Below it: Retry
--              (`shortActivityOpts`), one file on each activity (Create, Append, Close), Calls
--              (histories of activities), and the invariants (AtMostOnce, Closing, Ledger,
--              LedgerKept, Audit, AuditKept, Keys), what never goes away (History) and what is
--              counted (Counters)
--   Workflow   the functions of bill/workflow.go; Workflow/Contract: what a bill is for, as an
--              account that takes entries and is closed, without the machinery; Workflow/Run: one run
--              of `BillingWorkflow` as a state machine, with Picking (what its steps share), Counting
--              and Serial (updates apart), Races (updates together), Rolling (chains of runs),
--              Draining and Closing (the end of a run), Late (an update during it), Unheard (an item
--              whose activity reports a failure although it is stored), Reused (an id of another
--              bill's item), Agreement (the running total and the stored items), Tables and Sound
--              (the invariants of the tables through a run); Stacked, Mirrors, Refines,
--              Lifetime, Carried and Chained (the runs of a bill, from the first, against the
--              contract), Replies (what the callers of updates are told)
--   Clients    bill/clients.go: `lookupClient`, `loadClientFromDB`, `invalidateClient`;
--              Clients/Coherence: histories of the cache
--   Auth       bill/auth.go and bill/middleware.go; Auth/Identity: what they promise
--   Registry   bill/registry.go, bill/admin.go and the methods of `Currency` in bill/models.go;
--              Registry/ForeignKeys: the registry against the tables
--   Views      bill/views.go
--   Endpoints  bill/endpoints.go: Errors (the mapping of errors), Loading (`loadBillSummary`,
--              `fetchLineItems`, `assertOwnsBill`), Create, AddItem, Read (`CloseBill`, `GetBill`),
--              Cursors (limits, cursors and the cut of a page), ListItems, ListEvents, ListBills (the
--              list endpoints); about them Ownership, Mapping, Retries, Closing, Paging, PageSizes,
--              OwnBills, Malformed (ids without a bill, bad cursors), Access (AddLineItem from
--              the header to the run), Shown, Live and LiveClose (AddLineItem and then GetBill, and
--              CloseBill, over a run), and Pages, ItemPages, EventPages, BillPages (clients that follow
--              the cursors)
--   Tests      concrete states, and the theorems applied at them
--
-- How state and operations correspond. A function keeps the source's name in this spelling
-- (`AppendLineItemActivity` is `append_line_item_activity`). What a call of a library gives is an
-- argument: what a connection does in a transaction (`Conn`), what each look at a cache finds
-- (`Cached`), what the Temporal client answers during a request (`TemporalClient`), how each query
-- of a request goes (`Reads`), the order in which Go ranges over a map, `workflow.Now`, fresh and
-- derived UUIDs, `time.Format`. A transaction works on a copy of the tables, which becomes the
-- tables when it commits. Temporal runs one coroutine of a workflow at a time and switches where
-- one blocks, so a run of the workflow is a sequence of the events of Workflow/Run, in any order;
-- an update handler, which blocks on its activity, is two steps.
--
-- Bounds. The code has no loop of its own that could run on: the loops are over rows and ids, by
-- structural recursion, and an activity makes at most the five attempts of its retry policy. The
-- one loop that could is a client's that follows `nextCursor`: `walk` has a number of requests, and
-- one more than there are rows is enough. Instants and counts are natural numbers, since the
-- program counts up only, and amounts are values of the decimal interface, which has no width.
--
-- Not modelled: log lines and metrics of the platform; JSON; the cancellation of a workflow;
-- indexes, triggers of the migrations and what they do to older databases (the triggers refuse what
-- no statement of the service does); that a TIMESTAMPTZ column keeps microseconds; timeouts of
-- contexts. Temporal, Postgres, the LRU cache, singleflight, uuid, decimal, base64 and the time
-- formats are not code of this repository. Each request of a walk finds the tables as they are,
-- without changes between two pages.
pub mod Prelude
pub mod Errs
pub mod Money
pub mod Models
pub mod Store
pub mod Keyset
pub mod Service
pub mod Clients
pub mod Auth
pub mod Registry
pub mod Activities
pub mod Workflow
pub mod Views
pub mod Endpoints
pub mod Tests
