-- ===== src/Lib.antt =====
-- SportCrawl: the queue of scrape jobs, the buffer that hands them to workers, and the code that
-- runs, guards and restarts those workers.
--
-- The program stores the pages to scrape as rows of one PostgreSQL table, scrape_queue. Workers claim
-- rows, fetch and parse pages, and mark the rows done or failed; a buffer lets one producer prefetch
-- candidate ids; a gate pauses all workers when the site limits the rate; a pool and a worker skeleton
-- restart browsers that fail; a work server takes new URLs over HTTP; a listener refills the queue from
-- the URL registry tables; a pipeline script runs the three kinds of workers together; and a smoke
-- harness takes a real clearance through a series of gates.
--
-- Files and the code that they model:
--   Prelude.antt and below: shared names, tests, lists and texts
--   Queue/Table.antt: infrastructure/persistence/models/scrape_queue.py, core/exceptions/repository.py
--   Queue/Repository.antt, Queue/JobRepository.antt:
--     infrastructure/persistence/repositories/scrape_queue.py
--   Queue/PlayerInfo.antt: infrastructure/persistence/repositories/player_info_queue.py,
--     core/application/retry_policy.py
--   Queue/UrlTable.antt: infrastructure/persistence/repositories/backend_urls.py
--   Queue/Lifecycle.antt: what the status of a job may do; Queue/Moves, Refinement: the operations as
--     its steps
--   Queue/Operations.antt, Claims, Recovery, Ceiling, Retries, Queue/Table/Order, Writes,
--     Totals: theorems about the queue
--   Dispatch/Buffer.antt, Dispatch/System.antt: infrastructure/browser/dispatch.py
--   Dispatch/Sound.antt, Dispatch/Delivery.antt: theorems about the buffer
--   Dispatch/Producer.antt: infrastructure/browser/dispatch.py, CandidateProducer; Dispatch/Shutdown,
--     Stopping: its theorems
--   Gate/State.antt: infrastructure/browser/gate.py; Gate/Reopening, Gate/Probes: its theorems
--   Pool/Slot.antt: infrastructure/browser/pool.py; Pool/Engines, Pool/Backoff: its theorems
--   Worker/Loop.antt: core/application/base_worker.py; Worker/Restarts: its theorems
--   Server/Urls.antt: core/security/url_validator.py; Server/Allowlist: its theorem
--   Server/Adapter.antt: infrastructure/persistence/adapters/work_queue.py; Server/Insertion: its theorem
--   Server/Json.antt, Server/Requests.antt, Server/Clearances.antt, Server/Routes.antt:
--     infrastructure/work_server/server.py
--   Server/Decisions, Server/Submission, Server/Vetting, Server/Access: theorems about the server
--   Jobs/Loop.antt: infrastructure/jobs/job_loop.py; Jobs/Saved, Listed, Progress, Draining: its theorems
--   Preflight/Checks.antt: core/preflight/checks.py; Preflight/Run.antt: core/preflight/__init__.py;
--     Preflight/Order, Clean, Revisions: theorems about them
--   Listener/Upsert.antt, Listener/Sessions.antt: infrastructure/scheduler/notify_listener.py;
--     Listener/Conflicts, Repetition: theorems about the upsert
--   Processor/Player.antt: core/application/scrape_job_processor.py; Processor/References: its theorem
--   Crawl/Job.antt, Crawl/Loops.antt: scripts/scrape_player_info.py, jobs and claim loops;
--     Crawl/Handled, Copies, Running, Tidy: theorems about them
--   Crawl/Buffered.antt: scripts/scrape_player_info.py, run_buffered; Crawl/Mirror, Quiet: its theorems
--   Crawl/Startup.antt: scripts/scrape_player_info.py, _startup_drain; Crawl/Candidates, Schedulable,
--     Drained: its theorem
--   Teams/Claim.antt: infrastructure/persistence/repositories/team_list_queue.py
--   Teams/Loop.antt: scripts/scrape_country_teams.py; Teams/Registry, Head, Stuck: its theorems
--   Players/Loop.antt: scripts/scrape_players.py,
--     infrastructure/persistence/repositories/player_list_queue.py; Players/Blocked: its theorem
--   Players/Seeding.antt: scripts/scrape_players.py, _seed_queue; Players/Seeded: its theorem
--   Queue/Head: the job that waits with the smallest id
--   Pipeline/Tasks.antt: scripts/scrape_pipeline.py, the tasks and events of main; Pipeline/Facts,
--     Keeps, Order, Stalled, Rounds, Finishing: theorems about them
--   Harness/Patterns.antt, Harness/Seams.antt, Harness/Gates.antt, Harness/Browser.antt,
--     Harness/Run.antt: cli/smoke_clearance_real.py; Harness/Passing, Conditions, Launch, Clearance,
--     Cleared, Reports, Offline: its theorems
--
-- A table is the list of its rows and a statement a function on it: WHERE is a test, ORDER BY id an
-- insertion sort, LIMIT a prefix. `Session` holds what one transaction meets: the clock, the rows that
-- other transactions hold locked (SKIP LOCKED passes over them) and whether statements reach the
-- database; when they do not, the error is the one that the code raises and the table is as it was.
-- The flush of a row object writes the whole object. Times are seconds.
--
-- Code that is not in the repository enters as arguments: what urlparse, ip_address and
-- datetime.fromisoformat answer, the router and the JSON parser of the work server (its requests carry
-- a route and a parsed body), what a browser engine, a scraper or a repository call does, and what the
-- queries of the preflight checks return. An answer may always be an exception, where the call can
-- raise one.
--
-- The loops that wait for work have no bound of their own. The job loop's drain runs on fuel: one
-- more batch than the retries of the pending jobs allow is enough, because each batch processes a
-- job that is pending and uses up one of its retries. The drain at startup of scrape_player_info.py
-- runs on fuel too: one more batch than there are finished jobs and URLs without a job. All other
-- loops are recursions on a list of rounds, rows, checks or calls.
--
-- Coroutines are cut at their awaits: what runs between two awaits is one function, and the theorems
-- range over all sequences of such steps. Where a coroutine is driven by answers of the outside world,
-- these are a list, and a list that runs out means that the coroutine still waits.
--
-- Tasks of a batch of the job loop touch their own rows only, and are taken in the order in which they
-- start.
--
-- The tasks of the pipeline script are steps of one state, which take turns in any order; its main is
-- cut at its awaits. That every worker ends is what the events say, and eight rounds of wake-ups of the
-- other tasks are then enough.
--
-- Not modelled: the preparation of main in scrape_pipeline.py and the other main functions of scripts/;
-- _notify_all_due of scrape_country_teams.py; the cadence scheduler and the composition of the work server in runtime.py; HTML parsing and
-- browser automation (third-party libraries do the work), Alembic migrations, ORM column declarations
-- beyond the columns that the queue code reads, logging, display and the command line.
pub mod Prelude
pub mod Queue
pub mod Dispatch
pub mod Gate
pub mod Pool
pub mod Worker
pub mod Jobs
pub mod Server
pub mod Listener
pub mod Preflight
pub mod Processor
pub mod Crawl
pub mod Teams
pub mod Players
pub mod Pipeline
pub mod Harness
