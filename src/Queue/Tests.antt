-- ===== src/Queue/Tests.antt =====
-- The theorems about the queue at concrete tables.
use mathlib.Core.List.{Memᴰ}
use mathlib.Core.Path.{refl}
use sport_crawl.Prelude.{
  ℕ, ◌≤◌, true, false, Option, none, some, List, [], ◌∷◌, ◌≡◌, ◌≢◌, inr, arith, All,
}
use sport_crawl.Queue.Table.{
  ScrapeStatus, pending, in_progress, ScrapeQueue, Table, Session, ok, find, save, order_by_id,
  insert_by_id,
}
use sport_crawl.Queue.Repository.{claim_next, claimed}
use sport_crawl.Queue.PlayerInfo.{
  Database, record_job_failure, recover_failed_job, recorded, recovered,
}
use sport_crawl.Queue.UrlTable
use sport_crawl.Queue.UrlTable.{BackendUrlRow, BackendTable, player_urls, active, stale, find_url}
use sport_crawl.Queue.Operations.{perform, IsLocked, perform-IsLocked, job_mark_failed}
use sport_crawl.Queue.Table.Totals.{IsUnique}
use sport_crawl.Queue.Lifecycle.{Step, status_of}
use sport_crawl.Queue.Refinement.{perform-Step}
use sport_crawl.Queue.Claims.{IsClaimable, claim_next_oldest, claim_next_exclusive}
use sport_crawl.Queue.Retries.{
  FailedPair, record_job_failure_pair, recover_failed_job-record_job_failure,
}

abbrev job : ℕ → ScrapeStatus → Option ℕ → ScrapeQueue
job i status locked_at = record {
  id = i;
  url = "https://fbref.com/en/players/";
  domain = "fbref.com";
  status = status;
  completed_at = none;
  error_message = none;
  retry_count = 4;
  locked_at = locked_at;
  fk_url_registry_id = none;
  job_type = "player_info";
  fk_country = none;
}

abbrev jobs : Table
jobs = job 7 pending none ∷ job 3 pending none ∷ job 5 in_progress (some 100) ∷ []

abbrev session : Session
session = record { reachable = true; now = 9000; locked = λ i. false }

abbrev after_claim : Table
after_claim = save (claimed session (job 3 pending none)) jobs

first_claim :
    claim_next "player_info" session jobs
    ≡ (ok (some (claimed session (job 3 pending none))), after_claim)
unfolding claim_next order_by_id insert_by_id
first_claim = refl

second_claim : claim_next "player_info" session after_claim ≡ (
  ok (some (claimed session (job 7 pending none))),
  save (claimed session (job 7 pending none)) after_claim,
)
unfolding claim_next order_by_id insert_by_id save
second_claim = refl

claim_next_oldest_example :
    (q : ScrapeQueue) × Memᴰ q jobs
    × IsClaimable "player_info" session q
    × All (λ x. IsClaimable "player_info" session x → q.id ≤ x.id) jobs
    × (claimed session (job 3 pending none)
        ≡ record q { status = in_progress; locked_at = some 9000 })
    × (after_claim ≡ save (claimed session (job 3 pending none)) jobs)
claim_next_oldest_example =
    claim_next_oldest "player_info" session jobs (claimed session (job 3 pending none)) after_claim
      first_claim

claim_next_exclusive_example : ◌≢◌ {A = ℕ} 3 7
claim_next_exclusive_example =
    claim_next_exclusive "player_info" "player_info" session session jobs after_claim
      (save (claimed session (job 7 pending none)) after_claim)
      (claimed session (job 3 pending none)) (claimed session (job 7 pending none)) first_claim
      second_claim

unique : IsUnique jobs
unique j = ground arith

perform-Step_example :
    Step
      (job_mark_failed 5 "boom" 3)
      5
      (some in_progress)
      (status_of 5 (perform (job_mark_failed 5 "boom" 3) session jobs))
unfolding find
perform-Step_example = perform-Step (job_mark_failed 5 "boom" 3) session jobs unique (inr refl) 5

perform-IsLocked_example : IsLocked (perform (job_mark_failed 5 "boom" 3) session jobs)
perform-IsLocked_example =
    perform-IsLocked (job_mark_failed 5 "boom" 3) session jobs (refl, (refl, (refl, tt)))

abbrev profile : BackendUrlRow
profile = record {
  id = 40;
  url = "https://fbref.com/en/players/";
  url_type = "profile";
  priority = 5;
  next_scrape_at = 0;
  fk_country = none;
  cadence_hours = some 168;
  status = active;
  retry_count = 1;
  last_error = none;
  last_scrape_status = none;
  last_scraped_at = none;
}

abbrev tables : BackendTable → List BackendUrlRow
tables player_urls = profile ∷ []
tables _ = []

abbrev plain : Database
plain = record { queue = jobs; backend = tables }

abbrev linked_job : ScrapeQueue
linked_job = record (job 5 in_progress (some 100)) { fk_url_registry_id = some 40 }

abbrev linked_db : Database
linked_db = record { queue = linked_job ∷ []; backend = tables }

record_job_failure_pair_example :
    ((record_job_failure 5 "boom" 5 session linked_db).0 ≡ recorded)
    × FailedPair 5 "boom" 5 linked_job profile (record_job_failure 5 "boom" 5 session linked_db).1
unfolding find find_url
record_job_failure_pair_example =
    record_job_failure_pair 5 "boom" 5 session linked_db linked_job profile refl refl refl refl refl

recover_failed_job-record_job_failure_example :
    let after = recover_failed_job 5 session (record_job_failure 5 "boom" 5 session linked_db).1 in
    (after.0 ≡ recovered)
    × (find 5 after.1.queue
        ≡ some (record linked_job {
          status = pending;
          retry_count = 0;
          error_message = none;
          completed_at = none;
          locked_at = none;
        }))
    × (find_url 40 (after.1.backend player_urls)
        ≡ some (record profile {
          status = UrlTable.pending;
          retry_count = 0;
          last_error = none;
          last_scrape_status = some "FAILURE";
          next_scrape_at = 9000;
        }))
unfolding find find_url
recover_failed_job-record_job_failure_example =
    recover_failed_job-record_job_failure 5 "boom" 5 session linked_db linked_job profile refl refl
      refl refl refl session refl (omega arith)
