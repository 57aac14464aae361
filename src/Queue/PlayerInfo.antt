-- ===== src/Queue/PlayerInfo.antt =====
-- infrastructure/persistence/repositories/player_info_queue.py and core/application/retry_policy.py:
-- the retry ceiling of player_info jobs, and the two transactions over a job and its URL row.
use sport_crawl.Prelude.{
  ℕ, ◌+◌, ◌-◌, String, Bool, true, Option, none, some, ◌&&◌, not, leb, ◌==◌, str_eq, if◌then◌else◌,
}
use sport_crawl.Queue.Table.{
  pending, in_progress, failed, is_status, ScrapeQueue, Table, Outcome, ok, Session,
  repo_error_context, find, save, update_where, count_where,
}
use sport_crawl.Queue.Repository
use sport_crawl.Queue.Repository.{get_job_or_raise, with_row, released}
use sport_crawl.Queue.UrlTable.{
  BackendUrlRow, Backend, player_urls, stale, is_url_status, is_table, find_url, update_url,
  recover_stale_url,
}

unfoldable pub is_terminal : ℕ → ℕ → Bool
is_terminal current_retry_count max_retries = leb max_retries (current_retry_count + 1)

unfoldable pub claim_next : Session → Table → Outcome (Option ScrapeQueue) × Table
claim_next = Repository.claim_next "player_info"

abbrev pub retried_row : String → ℕ → Session → ScrapeQueue → ScrapeQueue
retried_row error max_queue_retries session r =
    let row = record r {
      retry_count = r.retry_count + 1;
      error_message = some error;
      locked_at = none;
    } in
    if is_terminal (row.retry_count - 1) max_queue_retries
    then record row { status = failed; completed_at = some session.now }
    else record row { status = pending }

unfoldable pub mark_failed : ℕ → String → ℕ → Session → Table → Outcome (Unit {0}) × Table
unfolding is_terminal
mark_failed job_id error max_queue_retries session table =
    repo_error_context "mark_failed" session table (
      with_row (get_job_or_raise job_id "mark_failed" table) table
        (retried_row error max_queue_retries session))

abbrev pub is_held : ℕ → ScrapeQueue → Bool
is_held job_id r =
    r.id == job_id && is_status r.status in_progress && str_eq r.job_type "player_info"

unfoldable pub release_to_pending : ℕ → Session → Table → Outcome Bool × Table
release_to_pending job_id session table = repo_error_context "release_to_pending" session table (
  ok (not (count_where (is_held job_id) table == 0)),
  update_where (is_held job_id) released table,
)

-- The queue and the five URL tables, in one database.
pub record Database : Type 0 where
  pub queue : Table
  pub backend : Backend

-- How record_job_failure ends: two logged returns, a commit, its own exception, or the database's.
pub data FailureReport : Type 0 where
  job_missing wrong_job_type recorded inconsistent database_error : FailureReport

-- The URL row that a job refers to: no reference, a dangling one, or the row.
pub data Reference : Type 0 where
  unlinked dangling : Reference
  linked : BackendUrlRow → Reference

abbrev pub to_reference : Option BackendUrlRow → Reference
to_reference none = dangling
to_reference (some u) = linked u

abbrev pub reference : Option ℕ → Database → Reference
reference none db = unlinked
reference (some url_id) db = to_reference (find_url url_id (db.backend player_urls))

-- UPDATE sch_fbref_backend.tbl_player_urls SET change WHERE id = :url_id.
abbrev pub update_player_url : (BackendUrlRow → BackendUrlRow) → ℕ → Backend → Backend
update_player_url change url_id backend = λ u.
    if is_table player_urls u then update_url (λ r. true) change url_id (backend u) else backend u

abbrev pub failed_job : String → ℕ → Session → ScrapeQueue → ScrapeQueue
failed_job error max_retries session r =
    let new_retry = r.retry_count + 1 in
    let row = record r { retry_count = new_retry; error_message = some error; locked_at = none } in
    if leb max_retries new_retry
    then record row { status = failed; completed_at = some session.now }
    else record row { status = pending }

-- The two UPDATE statements; they differ in the status column.
abbrev pub failed_player_url : String → ℕ → Bool → BackendUrlRow → BackendUrlRow
failed_player_url error new_retry terminal u =
    let row = record u {
      retry_count = new_retry;
      last_error = some error;
      last_scrape_status = some "FAILURE";
    } in
    if terminal then record row { status = stale } else row

-- The part after both rows are locked.
abbrev pub apply_failure :
    Reference → ScrapeQueue → String → ℕ → Session → Database → FailureReport × Database
apply_failure dangling q error max_retries session db = (inconsistent, db)
apply_failure unlinked q error max_retries session db =
    (recorded, record db { queue = save (failed_job error max_retries session q) db.queue })
apply_failure (linked u) q error max_retries session db =
    let new_retry = q.retry_count + 1 in
    let change = failed_player_url error new_retry (leb max_retries new_retry) in
    (
      recorded,
      record {
        queue = save (failed_job error max_retries session q) db.queue;
        backend = update_player_url change u.id db.backend;
      },
    )

abbrev pub record_found :
    Option ScrapeQueue → String → ℕ → Session → Database → FailureReport × Database
record_found none error max_retries session db = (job_missing, db)
record_found (some q) error max_retries session db =
    if str_eq q.job_type "player_info"
    then apply_failure (reference q.fk_url_registry_id db) q error max_retries session db
    else (wrong_job_type, db)

unfoldable pub record_job_failure : ℕ → String → ℕ → Session → Database → FailureReport × Database
record_job_failure job_id error max_retries session db =
    if session.reachable
    then record_found (find job_id db.queue) error max_retries session db
    else (database_error, db)

-- How recover_failed_job ends: a commit, one of its ValueErrors, or the database's error.
pub data RecoveryReport : Type 0 where
  recovered no_job not_player_info not_failed no_url_reference no_url_row not_stale : RecoveryReport
  recovery_error : RecoveryReport

abbrev pub restored_job : ScrapeQueue → ScrapeQueue
restored_job r = record r {
  status = pending;
  retry_count = 0;
  error_message = none;
  completed_at = none;
  locked_at = none;
}

abbrev pub finish_recovery : Option Backend → ScrapeQueue → Database → RecoveryReport × Database
finish_recovery none q db = (recovery_error, db)
finish_recovery (some backend) q db =
    (recovered, record { queue = save (restored_job q) db.queue; backend = backend })

abbrev pub recover_linked : Reference → ScrapeQueue → Session → Database → RecoveryReport × Database
recover_linked unlinked q session db = (no_url_reference, db)
recover_linked dangling q session db = (no_url_row, db)
recover_linked (linked u) q session db =
    if is_url_status u.status stale
    then finish_recovery (recover_stale_url "tbl_player_urls" u.id session.now db.backend) q db
    else (not_stale, db)

abbrev pub recover_found : Option ScrapeQueue → Session → Database → RecoveryReport × Database
recover_found none session db = (no_job, db)
recover_found (some q) session db =
    if not (str_eq q.job_type "player_info")
    then (not_player_info, db)
    else if not (is_status q.status failed)
    then (not_failed, db)
    else recover_linked (reference q.fk_url_registry_id db) q session db

unfoldable pub recover_failed_job : ℕ → Session → Database → RecoveryReport × Database
recover_failed_job job_id session db =
    if session.reachable
    then recover_found (find job_id db.queue) session db
    else (recovery_error, db)
