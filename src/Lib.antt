-- ===== src/Lib.antt =====
-- CrateProbe: the control plane that queues builds of crates (backend/app, with backend/core), and the
-- remote runners that execute them (backend/runner). A job waits in the queue until a runner claims it under a lease;
-- the runner reports its status, pushes its files and uploads its artifacts under that lease; a
-- scheduler takes back the jobs of runners that are gone; users add task definitions as zips and
-- create, cancel, retry and delete jobs.
--
-- Prelude: numbers, options, integers and lists that the modules share. Table: SQL over a list of
-- rows: SELECT, UPDATE, DELETE, count, ORDER BY and LIMIT 1, with the lemmas on them.
-- Models: backend/core/models.py.
-- Config: the settings of backend/app/config.py that are read at run time.
-- Database: backend/app/database.py. Types has the records and the tables; Tasks, Jobs, Sync, Chunks,
-- Claim and Runners have one function for each method of `Database`, of the same name, from the tables
-- to a result and the tables after it. A transaction is one step, as BEGIN IMMEDIATE makes it.
-- `datetime.now()` and random tokens are arguments; a time is a number of microseconds.
-- Claim has Given, the job that a runner gets. Query is `query_jobs`: Substrings is about its filters,
-- Orderings, Pages and Listings about its order and its pages; SQLite's sorter is an argument.
-- Scheduler: backend/app/services/scheduler.py. Tick and Rounds: what a round makes of each job. Recovery: the
-- end of the loops at startup and shutdown.
-- FilePath: what the code uses of pathlib, and the decimal text of a job id.
-- JobFiles: backend/app/services/job_files.py, over a disk that is a list of files by path. Safety:
-- `safe_join`. Contents: what files hold. Clearing: `clear`. Reading: listings and tails, with
-- backend/app/utils/file_utils.py.
-- TaskSpec: backend/core/task_spec.py from the parsed TOML table on, with the two regular expressions.
-- Its `Stored` is the dictionary form that is kept with a task definition.
-- TaskStore: backend/app/services/task_store.py; a zip is what zipfile reads of it.
-- RunnerMetrics: backend/app/services/runner_metrics_store.py. Window: what a query returns.
-- Sockets: backend/app/api/websocket.py, over sets of connections. A broadcast is given what happens at
-- each of its awaits. Broadcasts: who is left.
-- Api: backend/app/main.py. An endpoint maps the shared state (`Server`: the database, the zips, the
-- disk, the messages sent) to a reply and the state after it; a reply is a value or a status code. Auth:
-- `require_admin_token`, `require_runner_auth`, `require_job_lease`. Runner, Files, Tasks, Jobs, Batch,
-- Admin, Readers, Previews, Metrics: the endpoints. Leases, Pushes, Batches, Dashboard: what they guarantee.
-- System: the whole control plane as a list of requests, rounds and restarts, each served in turn, in
-- any order and at any times. Rows, Jobs, Leases, Safety, Untouched and Reach are about the jobs table
-- over each of them, Live about the states that are reached; Zips is about the stored zips.
-- Runner: backend/runner, one module for each of its files. Client: client.py, the repeated requests.
-- Network: what stands between the client and the endpoints of Api, where requests and replies are lost; over it
-- the runner's parts are composed with the server's. Reporter: reporter.py, which pushes the growing files: one
-- push (Once), a flush (InSync, Delivered, Lost) and all the rounds (Rounds).
-- Executor: executor.py; Reports and Acks are about the loop that reports the status, Live about its end,
-- Steps is the run of a job. TaskCache: task_cache.py. Worker: worker.py, how many jobs run at a time, each an
-- asyncio.Task with a number. Docker: docker_runner.py, as the calls that a run makes, with the places where
-- it may be cancelled. CratesApi, Cache, RateLimiter: crates_api.py and
-- crate_downloader.py, cache.py and rate_limiter.py. Settings: config.py.
-- Examples: a small control plane, on which the theorems are applied.
--
-- Functions of code that is not modelled are arguments. In the control plane they are the fields of `Env`:
-- `Path.resolve` (any function, so that links on the disk are arbitrary), `json.dumps`, PBKDF2, base64, the
-- digits and the rounding of Python. In the runner they are what one request of httpx ends with, its test
-- of a status, the decoding of bytes, the Docker client, the extraction of a zip, and `int`, `float` and `str`.
-- Loops are recursion on a list, or on the number of attempts that are left; a loop that waits for an
-- event runs over the list of what happens. Only `decimal` runs on fuel, one more than the number, which
-- is more than its digits.
--
-- Not modelled: the creation and migration of the tables, the endpoints that accept
-- WebSockets, `Config.from_file`; in the runner the preparation of a workspace, the loops of heartbeats and
-- metrics, the time limits of a shutdown, and the Docker daemon.
-- A request is one step: that another request may run at an `await` inside `upload_task`, `update_task` or
-- `create_job` is not modelled.
-- A poll of a worker is one step, too. A sequence number is any number, where SQLite's integers end at 2^63.
-- An archive entry that is named `.sha256`, as the marker of the task cache is, is not told apart from it.
-- Failures of the disk other than those of an artifact's stream, and the encoding of a request, are not
-- modelled either.
pub mod Prelude
pub mod Table
pub mod Models
pub mod Config
pub mod FilePath
pub mod JobFiles
pub mod TaskSpec
pub mod TaskStore
pub mod Api
pub mod System
pub mod Database
pub mod Scheduler
pub mod Examples
pub mod Runner
pub mod Sockets
pub mod RunnerMetrics
