-- ===== src/Crawl/Job.antt =====
-- scripts/scrape_player_info.py, class PlayerInfoWorker: what becomes of one claimed job. The body of
-- the claim loop stands twice in the source, with and without the gate, and twice here. Labels and
-- sleeps are left out, and an exception that a repository raises carries its class for its text.
use sport_crawl.Prelude.{ℕ, zero, suc, ◌+◌, String, Bool, true, Option, none, some}
use sport_crawl.Queue.Table.{ScrapeQueue, Table, Outcome, ok, err, Session}
use sport_crawl.Queue.Repository.{mark_done}
use sport_crawl.Queue.UrlTable.{Backend, mark_scraped}
use sport_crawl.Queue.PlayerInfo.{
  Database, FailureReport, job_missing, wrong_job_type, recorded, inconsistent, database_error,
  record_job_failure,
}

-- What an attempt can raise. A cancellation is no `Exception`, and no handler takes it.
pub data Raised : Type 0 where
  page_load rate_limit browser unexpected : String → Raised
  cancelled : Raised

-- navigate and wait_for_challenge: a page, an empty one, or an exception.
pub data Fetched : Type 0 where
  page empty_page : Fetched
  fetch_raises : Raised → Fetched

-- What one attempt meets: the page; what ScrapeJobProcessor raises before its mark_done; what the
-- four parsers of statistics and their upserts raise; the session; and what its commit raises.
pub record Attempt : Type 0 where
  pub fetched : Fetched
  pub parsed : Option Raised
  pub stats : Option Raised
  pub session : Session
  pub commit : Option Raised

-- What is not committed is lost with its session; without a backend mark_scraped has raised.
abbrev pub commit_store :
    Option Backend → Option Raised → Table → Database → Option Raised × Database
commit_store none commit queue db = (some (unexpected "ValueError"), db)
commit_store (some backend) (some e) queue db = (some e, db)
commit_store (some backend) none queue db = (none, record { queue = queue; backend = backend })

-- mark_scraped, in the same session, on the row that the job refers to.
abbrev pub scraped_backend : Option ℕ → Session → Backend → Option Backend
scraped_backend none session backend = some backend
scraped_backend (some url_id) session backend =
    mark_scraped "tbl_player_urls" url_id "SUCCESS" session.now backend

abbrev pub store_stats :
    Option Raised → ScrapeQueue → Attempt → Table → Database → Option Raised × Database
store_stats (some e) job a queue db = (some e, db)
store_stats none job a queue db =
    commit_store (scraped_backend job.fk_url_registry_id a.session db.backend) a.commit queue db

abbrev pub store_done :
    Outcome (Unit {0}) × Table → ScrapeQueue → Attempt → Database → Option Raised × Database
store_done (err e, queue) job a db = (some (unexpected "RepositoryError"), db)
store_done (ok _, queue) job a db = store_stats a.stats job a queue db

abbrev pub store_parsed :
    Option Raised → ScrapeQueue → Attempt → Database → Option Raised × Database
store_parsed (some e) job a db = (some e, db)
store_parsed none job a db = store_done (mark_done job.id a.session db.queue) job a db

-- The `try` block: what it raises, and the database.
abbrev pub try_fetched : Fetched → ScrapeQueue → Attempt → Database → Option Raised × Database
try_fetched page job a db = store_parsed a.parsed job a db
try_fetched empty_page job a db = (some (page_load "empty HTML response"), db)
try_fetched (fetch_raises e) job a db = (some e, db)

unfoldable pub try_attempt : ScrapeQueue → Attempt → Database → Option Raised × Database
try_attempt job a db = try_fetched a.fetched job a db

-- Whether a failure is on record when _record_failure_with_retry returns, or it raises.
pub data Record : Type 0 where
  on_record record_raises : Record

abbrev pub after_report :
    FailureReport × Database → (Database → Record × Database) → Record × Database
after_report (recorded, db) again = (on_record, db)
after_report (job_missing, db) again = (on_record, db)
after_report (wrong_job_type, db) again = (on_record, db)
after_report (inconsistent, db) again = (record_raises, db)
after_report (database_error, db) again = again db

-- _record_failure_with_retry with the number of tries that are left; `sessions` counts the tries.
unfoldable pub record_failure_with_retry :
    ℕ → ℕ → ℕ → String → ℕ → (ℕ → Session) → Database → Record × Database
record_failure_with_retry zero attempt job_id error ceiling sessions db = (record_raises, db)
record_failure_with_retry (suc left) attempt job_id error ceiling sessions db =
    after_report (record_job_failure job_id error ceiling (sessions attempt) db)
      (λ db'. record_failure_with_retry left (attempt + 1) job_id error ceiling sessions db')

abbrev pub max_attempts : ℕ
max_attempts = 3

-- How the handling of a job ends: success; -1 for a new browser; CooldownRequired; on with the next
-- job; the exception of a failure that could not be recorded; or a cancellation.
pub data JobEnd : Type 0 where
  succeeded browser_restart cooldown skipped fatal interrupted : JobEnd

abbrev pub ending : JobEnd → Record × Database → JobEnd × Database
ending e (on_record, db) = (e, db)
ending e (record_raises, db) = (fatal, db)

-- What a job meets: its attempts, and the sessions that record a failure.
pub record Meets : Type 0 where
  pub attempts : ℕ → Attempt
  pub failures : ℕ → Session

module _ (job : ScrapeQueue) (ceiling : ℕ) (meets : Meets) where
  abbrev pub record_failure : JobEnd → String → Database → JobEnd × Database
  record_failure e error db =
      ending e (record_failure_with_retry max_attempts 0 job.id error ceiling meets.failures db)

  -- `attempt` is raised by one: terminal at three, another attempt before.
  abbrev pub retry : ℕ → String → Database → JobEnd × Database → JobEnd × Database
  retry zero error db again = record_failure cooldown error db
  retry (suc left) error db again = again

  -- The `except` clauses of run_claim_loop.
  abbrev pub handle : Option Raised → ℕ → Database → JobEnd × Database → JobEnd × Database
  handle none left db again = (succeeded, db)
  handle (some (page_load e)) left db again = retry left e db again
  handle (some (rate_limit e)) left db again = retry left e db again
  handle (some (browser e)) left db again = record_failure browser_restart e db
  handle (some (unexpected e)) left db again = record_failure skipped e db
  handle (some cancelled) left db again = (interrupted, db)

  -- `while attempt < 3 and not success` of run_claim_loop, with the attempts that are left.
  unfoldable pub run_attempts : ℕ → ℕ → Database → JobEnd × Database
  run_attempts zero attempt db = (skipped, db)
  run_attempts (suc left) attempt db =
      let (raises, db') = try_attempt job (meets.attempts attempt) db in
      handle raises left db' (run_attempts left (attempt + 1) db')

  -- The same loop of _run_buffered_loop, with the calls of the gate: it is waited for before each
  -- attempt, and told of a rate limit, if there is one.
  abbrev pub signals : Bool → Option Raised → ℕ
  signals true (some (rate_limit _)) = 1
  signals _ _ = 0

  abbrev pub handle_buffered :
      Option Raised → ℕ → Database → (JobEnd × Database) × ℕ → (JobEnd × Database) × ℕ
  handle_buffered none left db again = ((succeeded, db), 0)
  handle_buffered (some (page_load e)) zero db again = (record_failure cooldown e db, 0)
  handle_buffered (some (page_load e)) (suc left) db again = again
  handle_buffered (some (rate_limit e)) zero db again = (record_failure cooldown e db, 0)
  handle_buffered (some (rate_limit e)) (suc left) db again = again
  handle_buffered (some (browser e)) left db again = (record_failure browser_restart e db, 0)
  handle_buffered (some (unexpected e)) left db again = (record_failure skipped e db, 0)
  handle_buffered (some cancelled) left db again = ((interrupted, db), 0)

  unfoldable pub run_buffered_attempts : Bool → ℕ → ℕ → Database → (JobEnd × Database) × ℕ
  run_buffered_attempts has_gate zero attempt db = ((skipped, db), 0)
  run_buffered_attempts has_gate (suc left) attempt db =
      let (raises, db') = try_attempt job (meets.attempts attempt) db in
      let (result, later) =
        handle_buffered raises left db' (run_buffered_attempts has_gate left (attempt + 1) db') in
      (result, signals has_gate raises + later)
