-- ===== src/Jobs/Saved.antt =====
-- infrastructure/jobs/job_loop.py: the work that a table still holds.
use sport_crawl.Prelude.{ℕ, suc, ◌-◌, if◌then◌else◌}
use sport_crawl.Queue.Table.{pending, is_status, ScrapeQueue, Table}
use sport_crawl.Queue.Table.Totals.{total}

-- How often a row can still be processed: a pending row until its retries reach the ceiling, and
-- once when they have.
unfoldable pub row_work : ℕ → ScrapeQueue → ℕ
row_work ceiling r = if is_status r.status pending then suc (ceiling - suc r.retry_count) else 0

abbrev pub work : ℕ → Table → ℕ
work ceiling = total (row_work ceiling)
