-- ===== src/Players/Loop.antt =====
-- scripts/scrape_players.py, PlayerListWorker.run_claim_loop. Labels and sleeps are left out,
-- and an exception that a repository raises carries its class for its text.
use sport_crawl.Prelude.{
  ℕ, zero, suc, ◌+◌, String, Bool, true, false, Option, none, some, List, [], ◌∷◌, if◌then◌else◌,
}
use sport_crawl.Queue.Table.{ScrapeQueue, Table, Outcome, ok, err, Session}
use sport_crawl.Queue.Repository
use sport_crawl.Queue.Repository.{mark_done, mark_failed}
use sport_crawl.Queue.UrlTable
use sport_crawl.Queue.UrlTable.{Backend, mark_scraped}
use sport_crawl.Queue.PlayerInfo.{Database}
use sport_crawl.Crawl.Loops.{
  LoopEnd, exhausted, restart, cooldown_required, raises, cancelled, going_on, Result, stop,
}

-- infrastructure/persistence/repositories/player_list_queue.py.
unfoldable pub claim_next : Session → Table → Outcome (Option ScrapeQueue) × Table
claim_next = Repository.claim_next "player_list"

-- What an attempt can raise: BrowserException, another Exception, or a cancellation.
pub data Failure : Type 0 where
  browser other : String → Failure
  cancellation : Failure

-- What an attempt meets: what the scraper raises, the session of mark_scraped, the session of
-- mark_done, and what its commit raises. The scrape stores the players in sessions of its own.
pub record Attempt : Type 0 where
  pub scrape : Option Failure
  pub marking : Session
  pub session : Session
  pub commit : Option Failure

-- A statement on the URL registry in a session of its own, whose exceptions are logged only.
abbrev pub keep_backend : Option Backend → Database → Database
keep_backend none db = db
keep_backend (some backend) db = record db { backend = backend }

abbrev pub logged : Bool → Option Backend → Database → Database
logged true after db = keep_backend after db
logged false after db = db

abbrev pub country_scraped : Option ℕ → Session → Database → Database
country_scraped none session db = db
country_scraped (some url_id) session db =
    logged session.reachable
      (mark_scraped "tbl_country_urls" url_id "SUCCESS" session.now db.backend) db

abbrev pub country_failed : Option ℕ → String → Session → Database → Database
country_failed none error session db = db
country_failed (some url_id) error session db =
    logged session.reachable (UrlTable.mark_failed "tbl_country_urls" url_id error 5 db.backend) db

abbrev pub store_marked :
    Outcome (Unit {0}) × Table → Option Failure → Database → Option Failure × Database
store_marked (err e, queue) commit db = (some (other "RepositoryError"), db)
store_marked (ok _, queue) (some e) db = (some e, db)
store_marked (ok _, queue) none db = (none, record db { queue = queue })

-- The `try` block.
abbrev pub try_scraped :
    Option Failure → ScrapeQueue → Attempt → Database → Option Failure × Database
try_scraped (some e) job a db = (some e, db)
try_scraped none job a db =
    store_marked (mark_done job.id a.session db.queue) a.commit
      (country_scraped job.fk_url_registry_id a.marking db)

unfoldable pub try_attempt : ScrapeQueue → Attempt → Database → Option Failure × Database
try_attempt job a db = try_scraped a.scrape job a db

pub data JobEnd : Type 0 where
  succeeded browser_restart cooldown interrupted : JobEnd

pub record Meets : Type 0 where
  pub attempts : ℕ → Attempt
  pub failure : Session
  pub backend_failure : Session

-- mark_failed in a `try` of its own, whose exceptions are logged only.
abbrev pub or_logged : Outcome (Unit {0}) × Table → Database → Database
or_logged (err e, queue) db = db
or_logged (ok _, queue) db = record db { queue = queue }

module _ (job : ScrapeQueue) (meets : Meets) where
  -- The job, then its URL.
  abbrev pub mark_job : String → Database → Database
  mark_job error db =
      country_failed job.fk_url_registry_id error meets.backend_failure
        (or_logged (mark_failed job.id error meets.failure db.queue) db)

  abbrev pub last_attempt : ℕ → String → Database → JobEnd × Database → JobEnd × Database
  last_attempt zero e db again = (cooldown, mark_job e db)
  last_attempt (suc left) e db again = again

  abbrev pub handle : Option Failure → ℕ → Database → JobEnd × Database → JobEnd × Database
  handle none left db again = (succeeded, db)
  handle (some (browser e)) left db again = (browser_restart, mark_job e db)
  handle (some (other e)) left db again = last_attempt left e db again
  handle (some cancellation) left db again = (interrupted, db)

  -- `for attempt in range(1, max_attempts + 1)`, with the attempts that are left.
  unfoldable pub run_attempts : ℕ → ℕ → Database → JobEnd × Database
  run_attempts zero attempt db = (cooldown, db)
  run_attempts (suc left) attempt db =
      let (failure, db') = try_attempt job (meets.attempts attempt) db in
      handle failure left db' (run_attempts left (attempt + 1) db')

abbrev pub max_attempts : ℕ
max_attempts = 3

pub record Round : Type 0 where
  pub claim : Session
  pub meets : Meets

abbrev pub after_job : JobEnd × Database → ℕ → (ℕ → Database → Result) → Result
after_job (succeeded, db) processed next = next (processed + 1) db
after_job (browser_restart, db) processed next = stop restart processed db
after_job (cooldown, db) processed next = stop cooldown_required processed db
after_job (interrupted, db) processed next = stop cancelled processed db

abbrev pub claimed_list :
    Outcome (Option ScrapeQueue) × Table → Round → ℕ → Database → (ℕ → Database → Result) → Result
claimed_list (err e, queue) r processed db next = stop raises processed db
claimed_list (ok none, queue) r processed db next = stop exhausted processed db
claimed_list (ok (some job), queue) r processed db next =
    after_job (run_attempts job r.meets max_attempts 0 (record db { queue = queue })) processed next

unfoldable pub run_claim_loop : List Round → ℕ → Database → Result
run_claim_loop [] processed db = stop going_on processed db
run_claim_loop (r ∷ rest) processed db =
    claimed_list (claim_next r.claim db.queue) r processed db (λ n db'. run_claim_loop rest n db')

-- BaseWorker.run enters another session unless the queue is exhausted or the worker cancelled.
abbrev pub goes_on : LoopEnd → Bool
goes_on restart = true
goes_on cooldown_required = true
goes_on raises = true
goes_on exhausted = false
goes_on cancelled = false
goes_on going_on = false

unfoldable pub run_sessions : List (List Round) → ℕ → Database → ℕ × Database
run_sessions [] processed db = (processed, db)
run_sessions (rounds ∷ rest) processed db =
    let r = run_claim_loop rounds processed db in
    let later = run_sessions rest r.processed r.database in
    if goes_on r.end then later else (r.processed, r.database)
