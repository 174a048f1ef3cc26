-- ===== src/Lib.antt =====
-- tasker: a job queue for Go with drivers for SQL and Redis.
--
-- A Manager (tasker.go) turns a job into a row and hands it to a driver, inside the dispatch
-- middlewares. A driver (driver/sqldriver, driver/redisdriver) keeps the rows and hands them to workers. A
-- worker (pool.go) claims a row, decodes the job, runs it inside its middlewares, and tells the driver
-- how the run ended, as the state machine (state_machine.go) decides. Pools hold the workers of a
-- queue; the supervisor (supervisor/supervisor.go) starts, pauses and scales pools, and requeues and
-- prunes jobs. The coordinator (coordinator/coordinator.go) keeps a node's heartbeat and tries to lead.
--
-- The files:
-- - Base: numbers, lists, Boolean tests, integers and the 64-bit word; Base.Int is Go's int without
--   overflow, Base.Word with it.
-- - Job: JobRow, State, the errors and backoff configurations of types.go, errors.go and job.go. Times
--   and durations are integers, in nanoseconds.
-- - Machine: Transition.Valid, ComputeNextState and the backoffs of state_machine.go;
--   Machine.Transitions and Machine.Backoff prove.
-- - Sql: the driver of driver/sqldriver/driver.go. Sql.Store has the tables as lists of rows,
--   Sql.Statement statements and transactions, Sql.Enqueue, Sql.Claim, Sql.Finish, Sql.Admin and
--   Sql.Lease the operations under their names in Go. A statement is one step on the tables. Which
--   statements fail is a list that the environment chooses, so each theorem about an operation is
--   about all its error paths. Sql.Changes is the relation between the tables before and after, and
--   its child modules prove that each operation is in it; Sql.Keys, Sql.Invariant, Sql.Claimed,
--   Sql.Taken, Sql.Batch, Sql.Outcomes, Sql.Pending, Sql.Locks and Sql.Leader prove. Sql.Arrays has
--   encodeTextArray and decodeTextArray, on lists of code points; Sql.Arrays.RoundTrip proves.
--   Sql.Columns has a job's columns, as Enqueue writes and scanJob reads them: Db holds the rows as
--   scanJob gives them; Sql.Columns.Stored proves.
--   Sql.Connection has NewDriver and Close, Sql.Migrate the migration, and their children prove.
--   Sql.Query has QueryJobs, with the query that it builds and what the query reads, and its children
--   prove; Sql.Statistics has the statistics.
-- - Redis: the driver of driver/redisdriver/driver.go. Redis.Store has the keys that its scripts use: the
--   hash of jobs as rows, and sorted sets as lists of ids with scores. Redis.Enqueue, Redis.Claim,
--   Redis.Finish and Redis.Admin are the operations on jobs, each script a function that runs alone,
--   Redis.Nodes those on keys that expire, Redis.Query the listing, Redis.Statistics the statistics. What becomes of each script that
--   is sent (answered, not run, or run with its reply lost) is an argument. Redis.Linked says when the
--   index sets agree with the jobs, Redis.Steps and its child modules prove that each script keeps
--   that; Redis.Invariant, Redis.Claimed, Redis.Batches, Redis.Owner and Redis.Pages prove the rest.
-- - Stats: the statistics of types.go, over any floating point; Stats.Agree proves.
-- - Channel: channels that are only closed.
-- - Around: the loop that puts middlewares around a call.
-- - Dispatch: buildJobRow and the options; Dispatch.Send has Dispatch, DispatchBatch and Chain over any
--   driver; Dispatch.Rows and Dispatch.Sql prove, the latter for the SQL driver.
-- - Worker: processJob and execute of pool.go and the maps of registry.go, over any driver and any code
--   of a job; Worker.Ends and Worker.Keeps prove, and Worker.Sql for the SQL driver. Worker.Loop is
--   the loop of worker.run, and proves; Worker.Middlewares has middleware.go and job_context.go.
-- - Pool, Supervisor: which workers a pool has, and what the supervisor does to them; Pool.Numbers,
--   Pool.Stops, Supervisor.Queues and Supervisor.Restart prove.
-- - Manager: Work and Stop of tasker.go; Manager.Stops proves.
-- - Coordinator: Start, Stop and the calls of the tickers of coordinator/coordinator.go, over the SQL
--   driver; Coordinator.Cluster puts several nodes over one database. Coordinator.Lease,
--   Coordinator.Cluster and Coordinator.Cluster.Term prove.
-- - Web: the management API of web/web.go: its requests, answers and page sizes; Web.Answers and
--   Web.Handlers are the handlers, over any manager and over the supervisor of Supervisor; Web.Guard
--   has the middlewares and Handler, Web.Routes the routes, Web.OverRedis the manager of tasker.go over
--   the Redis driver, Web.Events the event stream. Web.Reach, Web.Limits, Web.Routes and Web.OverRedis prove.
-- - Batch: the calls of batch/batch.go on any manager.
-- - Scheduler: Register, Remove and the firing of an entry of scheduler/scheduler.go, Start and Stop
--   in Scheduler.Service; Scheduler.Entries proves.
-- - Commands: the commands of cmd/.
-- - Tests: concrete rows and tables, and the theorems at them.
--
-- Parameters: what json.Marshal and json.Unmarshal make of a job (a field of JobValue, and the factory
-- of a Registry), the code of a job and of the middlewares, and what the clock shows and uuid gives
-- (arguments of each call); the functions of strings and strconv that the listing and the handlers
-- use (records Texts and Std); ILIKE, ORDER BY and AVG of the database (record Engine, and an argument
-- of the statistics); floating point (record Float); encoding/json on the columns of a job (record Json);
-- opening, pinging and closing a pool (record Database); cron (a record of its operations with what they promise); and decode,
-- which is json.Unmarshal of a document as Lua has encoded it. No definition uses fuel: all loops are over lists or counts.
--
-- Not modelled: the SQL text and its engines, with the row locks of SKIP LOCKED (a statement or a
-- transaction runs alone); ids that PostgreSQL and MySQL leave out after a rollback (here it takes
-- the sequence of ids back as well, as in SQLite); the precision of stored
-- times, and the way in which PostgreSQL prints an array (a column comes back as it was written);
-- the columns of the tables; cjson, whose documents are held as the rows that they encode, with ids
-- below 2^53; the goroutines and tickers themselves, whose rounds and ticks are events in any order,
-- as is the end of the context that a coordinator was started with (a ticker that panics when it is
-- made is modelled, at the Start that spawns its loop);
-- the router and the page of the web interface, its assets, and the parsing of command lines.
pub mod Around
pub mod Base
pub mod Batch
pub mod Channel
pub mod Commands
pub mod Coordinator
pub mod Dispatch
pub mod Job
pub mod Machine
pub mod Manager
pub mod Pool
pub mod Redis
pub mod Scheduler
pub mod Sql
pub mod Stats
pub mod Supervisor
pub mod Tests
pub mod Web
pub mod Worker
