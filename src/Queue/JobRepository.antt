-- ===== src/Queue/JobRepository.antt =====
-- infrastructure/persistence/repositories/scrape_queue.py, class ScrapeQueueJobRepository: the
-- operations of JobLoop, on the jobs of every job_type. A method that is handed a row object
-- changes and flushes that object.
use sport_crawl.Prelude.{
  ℕ, ◌+◌, String, Bool, none, some, List, ◌&&◌, not, leb, str_eq, if◌then◌else◌, select, take,
}
use sport_crawl.Queue.Table.{
  ScrapeStatus, pending, in_progress, failed, is_status, ScrapeQueue, Table, Outcome, ok, Session,
  repo_error_context, save, update_where, order_by_id, count_where,
}
use sport_crawl.Queue.Repository.{claimed, completed, released, locked_before}

-- The rows of list_pending, which skips those that another transaction holds.
abbrev pub is_free : Session → ScrapeQueue → Bool
is_free session r = is_status r.status pending && not (session.locked r.id)

unfoldable pub list_pending : ℕ → Session → Table → Outcome (List ScrapeQueue) × Table
list_pending limit session table =
    repo_error_context "list_pending" session table
      (ok (take limit (order_by_id (select (is_free session) table))), table)

abbrev pub is_stale_in : String → ℕ → Session → ScrapeQueue → Bool
is_stale_in domain minutes session r =
    is_status r.status in_progress
    && str_eq r.domain domain
    && locked_before session.now minutes r.locked_at

unfoldable pub recover_stale : String → ℕ → Session → Table → Outcome ℕ × Table
recover_stale domain ttl_minutes session table = repo_error_context "recover_stale" session table (
  ok (count_where (is_stale_in domain ttl_minutes session) table),
  update_where (is_stale_in domain ttl_minutes session) released table,
)

unfoldable pub mark_in_progress : ScrapeQueue → Session → Table → Outcome ScrapeQueue × Table
mark_in_progress row session table =
    repo_error_context "mark_in_progress" session table
      (ok (claimed session row), save (claimed session row) table)

unfoldable pub mark_done : ScrapeQueue → Session → Table → Outcome ScrapeQueue × Table
mark_done row session table =
    repo_error_context "mark_done" session table
      (ok (completed session row), save (completed session row) table)

-- The retry ceiling: FAILED at max_queue_retries, PENDING below it.
abbrev pub failed_row : String → ℕ → Session → ScrapeQueue → ScrapeQueue
failed_row error max_queue_retries session r =
    let row = record r {
      retry_count = r.retry_count + 1;
      error_message = some error;
      locked_at = none;
    } in
    if leb max_queue_retries row.retry_count
    then record row { status = failed; completed_at = some session.now }
    else record row { status = pending }

unfoldable pub mark_failed :
    ScrapeQueue → String → ℕ → Session → Table → Outcome ScrapeStatus × Table
mark_failed row error max_queue_retries session table =
    let row' = failed_row error max_queue_retries session row in
    repo_error_context "mark_failed" session table (ok row'.status, save row' table)
