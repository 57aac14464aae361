-- ===== src/Jobs/Tests.antt =====
-- The job loop's theorems on a queue of two jobs.
use sport_crawl.Prelude.{ℕ, ◌==◌, true, false, none, [], ◌∷◌, refl, if◌then◌else◌, arith}
use sport_crawl.Queue.Table.{pending, ScrapeQueue, Session, find}
use sport_crawl.Jobs.Loop.{Store, page, handled_error, finishes, Meets, Batch, process, drain}
use sport_crawl.Queue.Table.Totals.{IsUnique}
use sport_crawl.Jobs.Saved.{row_work}
use sport_crawl.Jobs.Progress.{IsProcessed, process-IsProcessed}
use sport_crawl.Jobs.Draining.{IsDrained, drain-IsDrained}

abbrev job : ℕ → ScrapeQueue
job i = record {
  id = i;
  url = "https://fbref.com/en/countries/";
  domain = "fbref.com";
  status = pending;
  completed_at = none;
  error_message = none;
  retry_count = 1;
  locked_at = none;
  fk_url_registry_id = none;
  job_type = "default";
  fk_country = none;
}

abbrev session : Session
session = record { reachable = true; now = 100; locked = λ _. false }

abbrev store : Store
store = record { rows = job 1 ∷ job 2 ∷ []; provenance = [] }

-- Job 1 succeeds, every other job fails.
abbrev meets : ℕ → Meets
meets i = record {
  first = session;
  scrape = if i == 1 then page "abc" else handled_error "no table";
  finish = finishes session "mark_done failed";
  failure = session;
}

abbrev batches : ℕ → Batch
batches n = record { stopped = false; listing = session; run_id = n; meets = meets }

process-IsProcessed_example : IsProcessed (job 2) "u" 7 2 store (process 2 "u" 7 2 (meets 2) store)
unfolding find
process-IsProcessed_example = process-IsProcessed 2 "u" 7 2 (meets 2) store (job 2) refl refl

unique : IsUnique store.rows
unique j = ground arith

drain-IsDrained_example :
    let (result, store') = drain 6 10 3 batches store in IsDrained 3 0 store result store'
unfolding row_work
drain-IsDrained_example = drain-IsDrained 10 3 batches (λ n i. refl) 6 store unique (omega arith)
