-- ===== src/Lib.antt =====
-- Tabayyun's api: who may do what, how that is administered, how people sign in, and what is
-- fetched from the sources of data.
--
-- A request comes with a session cookie. `Auth` finds its session and the principal that it acts
-- for, `Authz` says which role the principal has in a workspace and what the role allows, `Admin`
-- changes the people, teams and workspaces that `Authz` reads, each change in one transaction with
-- one event in the audit log, and `Rates` counts requests. Apart from these, `Fetch` says which
-- time ranges of a series the cache lacks and which calls of a connector fill them, and `Findings`
-- stores what the checks of a series report. `Engine` carries a fetch out: it claims its row, plans
-- the calls with `Fetch`, makes them, records what the cache then covers and stores how the fetch
-- ended with the health of its source. `Runs` takes an upload through the checks and stores what
-- they found with `Findings`. `Groups` keeps which series belong together, `Series` what is known
-- of each.
--
-- Prelude and its children hold what the others share: numbers and tests, tables as lists of rows
-- with the statements of SQL (`select`, `first`, `any`, `count`, `update`, `delete`), sorting,
-- texts, and transactions that an error rolls back (`Tx`).
--
-- Db is api/src/tabayyun/db/models.py: a record for each table, and `Db` with all of them, the
-- clocks and the uuids drawn so far. Authz.Roles is authz/roles.py and authz/scope.py, Authz.Policy
-- is authz/policy.py. Admin.Errors, Names, Audit, Rules, Members, Teams and Workspaces are the
-- files of services/admin, Admin.Email and Admin.Invitations its invitations.py, Admin.Routes the
-- gates and handlers of routers/admin.py. Auth.Flows and Auth.Sessions are auth/store.py,
-- Auth.Request is auth/deps.py and authz/deps.py. Rates.Windows and Rates.Counter are
-- services/rate_limits.py. Fetch.Instants is services/timeconv.py, Fetch.Coverage is
-- services/coverage.py, Fetch.Plan is connectors/plan.py with the limits of connectors/base.py.
-- Findings.Evidence, Store, Report and Status are services/findings.py; a finding or an invitation
-- that is loaded is known by its place in the table (Rows), as an object of the ORM stands for its
-- row. Groups.Members and Groups.Store are services/groups.py. Engine.Tables, Create, Health,
-- Prepare, Call and Execute are services/fetches.py. Series.Tables, Limits, Values, Uploads and
-- Patch are services/series.py, Series.Import and Apply are services/source_metadata.py,
-- Series.Describe is the import of services/fetches.py. Runs.Tables, Transactions, Completion and
-- Execute are services/runs.py, the reaper with its function in
-- db/migrations/versions/0004_rls_memberships_roles.py. All paths are below api/src/tabayyun.
-- Functions keep their names; a leading underscore is dropped, and `record` of services/coverage.py
-- is `record_range`, that of services/admin/audit.py `record_event`. The other modules hold proofs
-- and are named for what they prove.
--
-- A query is the selection that its clauses describe, in the order of the rows; a query for one
-- value answers the first row. Instants are natural numbers, counted from the year 1 in
-- microseconds, or nanoseconds where the code has nanoseconds; datetimes of Python start there too.
-- Uuids and hashes are natural numbers. The database's `now()` is one instant through a
-- transaction.
--
-- `cut`, the loop of `spans`, runs on as much fuel as the range is long: each turn moves on by one
-- at least. `chunk_calls` and `describe_points` run on as much fuel as there are points, and each
-- turn takes one at least.
--
-- What the outside answers to the call number n of a fetch is a `Turn`: whether the deadline has
-- passed, the batches of the connector and how it ended, what the cache says to each write, and the
-- clock behind them. A table of a connector is its number of rows and its qualities.
--
-- A run is a row that several transactions take turns on: the api creates it, a worker claims it,
-- completes or fails it and notes what the cache wrote, and the reaper fails what runs for too
-- long. `Runs.Steps.Step` is one of these transactions with any arguments, so a sequence of them is
-- any interleaving of workers, whose transactions are each taken as a whole; `execute_run` takes
-- what others commit between its own transactions as `meanwhile`. Runs of datasets are rows of the
-- same table with another trigger, which services/dataset_runs.py creates and executes; they are
-- left out, so the steps are those of runs of uploads.
--
-- A double of a limit is NaN or its rank among the doubles that are numbers, as the code only
-- compares it; the infinities have the first and the last rank. Every comparison with NaN is false,
-- so a limit that is NaN bounds nothing, and JSONB holds finite numbers only, so no run of an
-- upload has another limit. The columns that an import changes are flushed by the session with
-- `updated_at` set to the database's time, as `onupdate` of db/models.py has it.
--
-- Taken as parameters are these turns, the loading of credentials and the building of a connector,
-- the draws of uuid4 and the known time zones (`Host`), the parser and the checks of the core, the
-- hash of a session token, the parse of a UUID, `str.lower`, the length of JSON, the ids that the
-- database draws, the function of the database that accepts invitations, and the orders of the
-- database and of Python on texts. Row-level security, concurrent transactions on anything but
-- runs, logging, the delivery of mail, the job queue and the other SQL of migrations are not
-- modelled, and neither are datasets and their runs, the tasks that search or check a source, the
-- audit event of an import, the connectors, the Rust core and the web client.
pub mod Prelude
pub mod Rows
pub mod Db
pub mod Authz
pub mod Admin
pub mod Fetch
pub mod Findings
pub mod Groups
pub mod Engine
pub mod Series
pub mod Runs
pub mod Auth
pub mod Rates
pub mod Tests
