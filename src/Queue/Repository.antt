-- ===== src/Queue/Repository.antt =====
-- infrastructure/persistence/repositories/scrape_queue.py, class ScrapeQueueRepository: the state
-- machine of the jobs of one job_type. An operation returns its result and the table.
use sport_crawl.Prelude.{
  ℕ, ◌+◌, ◌*◌, String, Bool, false, Option, none, some, List, map, ltb, ◌==◌, ◌&&◌, not, str_eq,
  select, head?, take,
}
use sport_crawl.Queue.Table.{
  pending, in_progress, done, failed, is_status, ScrapeQueue, Table, Outcome, ok, err, not_found,
  Session, repo_error_context, find, save, update_where, order_by_id, first_row, count_where,
}

-- status = PENDING AND job_type = :job_type, of a row that no other transaction holds.
abbrev pub is_claimable : String → Session → ScrapeQueue → Bool
is_claimable job_type session r =
    is_status r.status pending && str_eq r.job_type job_type && not (session.locked r.id)

-- The two assignments and the flush of claim_next and claim_by_id.
abbrev pub claimed : Session → ScrapeQueue → ScrapeQueue
claimed session r = record r { status = in_progress; locked_at = some session.now }

abbrev pub claim_row : Session → Table → Option ScrapeQueue → Outcome (Option ScrapeQueue) × Table
claim_row session table none = (ok none, table)
claim_row session table (some row) =
    (ok (some (claimed session row)), save (claimed session row) table)

unfoldable pub claim_next : String → Session → Table → Outcome (Option ScrapeQueue) × Table
claim_next job_type session table =
    repo_error_context "claim_next" session table
      (claim_row session table (first_row (is_claimable job_type session) table))

unfoldable pub peek_pending_ids : String → ℕ → Session → Table → Outcome (List ℕ) × Table
peek_pending_ids job_type limit session table =
    let test = λ (r : ScrapeQueue). is_status r.status pending && str_eq r.job_type job_type in
    repo_error_context "peek_pending_ids" session table
      (ok (map (λ (r : ScrapeQueue). r.id) (take limit (order_by_id (select test table)))), table)

unfoldable pub claim_by_id : String → ℕ → Session → Table → Outcome (Option ScrapeQueue) × Table
claim_by_id job_type job_id session table = repo_error_context "claim_by_id" session table (
    claim_row session table
      (head? (select (λ r. r.id == job_id && is_claimable job_type session r) table)))

abbrev pub get_job_or_raise : ℕ → String → Table → Outcome ScrapeQueue
get_job_or_raise job_id operation table = elim (find job_id table) [
  | none ↦ err (not_found operation job_id)
  | some row ↦ ok row
]

-- The rest of a method, after the row is found.
abbrev pub with_row :
    Outcome ScrapeQueue → Table → (ScrapeQueue → ScrapeQueue) → Outcome (Unit {0}) × Table
with_row (err e) table change = (err e, table)
with_row (ok row) table change = (ok tt, save (change row) table)

abbrev pub completed : Session → ScrapeQueue → ScrapeQueue
completed session r = record r { status = done; completed_at = some session.now; locked_at = none }

unfoldable pub mark_done : ℕ → Session → Table → Outcome (Unit {0}) × Table
mark_done job_id session table =
    repo_error_context "mark_done" session table
      (with_row (get_job_or_raise job_id "mark_done" table) table (completed session))

-- The failure is recorded and the job goes back to PENDING, whatever its retry_count.
abbrev pub requeued : String → ScrapeQueue → ScrapeQueue
requeued error r = record r {
  retry_count = r.retry_count + 1;
  error_message = some error;
  locked_at = none;
  status = pending;
}

unfoldable pub mark_failed : ℕ → String → Session → Table → Outcome (Unit {0}) × Table
mark_failed job_id error session table =
    repo_error_context "mark_failed" session table
      (with_row (get_job_or_raise job_id "mark_failed" table) table (requeued error))

-- status = PENDING, locked_at = NULL.
abbrev pub released : ScrapeQueue → ScrapeQueue
released r = record r { status = pending; locked_at = none }

abbrev pub is_running : String → ScrapeQueue → Bool
is_running job_type r = str_eq r.job_type job_type && is_status r.status in_progress

unfoldable pub recover_all_stale : String → Session → Table → Outcome ℕ × Table
recover_all_stale job_type session table = repo_error_context "recover_all_stale" session table (
  ok (count_where (is_running job_type) table),
  update_where (is_running job_type) released table,
)

abbrev pub is_dead : String → ScrapeQueue → Bool
is_dead job_type r = is_status r.status failed && str_eq r.job_type job_type

abbrev pub revived : ScrapeQueue → ScrapeQueue
revived r = record r {
  status = pending;
  retry_count = 0;
  error_message = none;
  completed_at = none;
}

unfoldable pub recover_failed : String → Session → Table → Outcome ℕ × Table
recover_failed job_type session table =
    repo_error_context "recover_failed" session table
      (ok (count_where (is_dead job_type) table), update_where (is_dead job_type) revived table)

-- locked_at < now() - cutoff minutes, in seconds; no comparison with NULL holds.
abbrev pub locked_before : ℕ → ℕ → Option ℕ → Bool
locked_before now minutes none = false
locked_before now minutes (some t) = ltb (t + minutes * 60) now

abbrev pub is_stale : String → ℕ → Session → ScrapeQueue → Bool
is_stale job_type minutes session r =
    is_running job_type r && locked_before session.now minutes r.locked_at

unfoldable pub recover_stale : String → ℕ → Session → Table → Outcome ℕ × Table
recover_stale job_type cutoff_minutes session table =
    repo_error_context "recover_stale" session table (
      ok (count_where (is_stale job_type cutoff_minutes session) table),
      update_where (is_stale job_type cutoff_minutes session) released table,
    )
