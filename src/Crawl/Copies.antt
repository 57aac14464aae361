-- ===== src/Crawl/Copies.antt =====
-- scripts/scrape_player_info.py: the two copies of the loop over attempts.
use sport_crawl.Prelude.{ℕ, zero, suc, ◌+◌, Bool, Option, none, some, ◌≡◌, refl}
use sport_crawl.Queue.Table.{ScrapeQueue}
use sport_crawl.Queue.PlayerInfo.{Database}
use sport_crawl.Crawl.Job.{
  Raised, page_load, rate_limit, browser, unexpected, cancelled, try_attempt, JobEnd, Meets, handle,
  run_attempts, handle_buffered, run_buffered_attempts,
}

-- The two copies of the loop over attempts do the same to the job and the database, whether there is
-- a gate or not.
pub run_buffered_attempts-eq :
    (job : ScrapeQueue) (ceiling : ℕ) (meets : Meets) (has_gate : Bool) (left attempt : ℕ)
    (db : Database)
    → (run_buffered_attempts job ceiling meets has_gate left attempt db).0
      ≡ run_attempts job ceiling meets left attempt db
unfolding run_buffered_attempts run_attempts
run_buffered_attempts-eq job ceiling meets has_gate zero attempt db = refl
run_buffered_attempts-eq job ceiling meets has_gate (suc left) attempt db =
    handle_buffered-eq (try_attempt job (meets.attempts attempt) db).0 left
      (try_attempt job (meets.attempts attempt) db).1
      (run_buffered_attempts job ceiling meets has_gate left (attempt + 1)
        (try_attempt job (meets.attempts attempt) db).1)
      (run_attempts job ceiling meets left (attempt + 1)
        (try_attempt job (meets.attempts attempt) db).1)
      (run_buffered_attempts-eq job ceiling meets has_gate left (attempt + 1)
        (try_attempt job (meets.attempts attempt) db).1)
  where
    handle_buffered-eq :
        (o : Option Raised) (left : ℕ) (db : Database) (buffered : (JobEnd × Database) × ℕ)
        (direct : JobEnd × Database)
        → buffered.0 ≡ direct
        → (handle_buffered job ceiling meets o left db buffered).0
          ≡ handle job ceiling meets o left db direct
    handle_buffered-eq none left db buffered direct e = refl
    handle_buffered-eq (some (page_load x)) zero db buffered direct e = refl
    handle_buffered-eq (some (page_load x)) (suc left) db buffered direct e = e
    handle_buffered-eq (some (rate_limit x)) zero db buffered direct e = refl
    handle_buffered-eq (some (rate_limit x)) (suc left) db buffered direct e = e
    handle_buffered-eq (some (browser x)) left db buffered direct e = refl
    handle_buffered-eq (some (unexpected x)) left db buffered direct e = refl
    handle_buffered-eq (some cancelled) left db buffered direct e = refl
