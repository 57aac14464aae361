-- ===== src/Teams/Loop.antt =====
-- scripts/scrape_country_teams.py, CountryTeamsWorker.run_claim_loop. Labels and sleeps are left out,
-- and an exception that a repository raises carries its class for its text.
use sport_crawl.Prelude.{
  ℕ, zero, suc, ◌+◌, String, Bool, true, false, Option, none, some, List, [], ◌∷◌, ◌++◌,
  if◌then◌else◌, str, map,
}
use Prim.Native.String as Text
use sport_crawl.Queue.Table.{ScrapeQueue, Table, Outcome, ok, err, Session}
use sport_crawl.Queue.Repository.{mark_done, mark_failed}
use sport_crawl.Queue.UrlTable
use sport_crawl.Queue.UrlTable.{Backend, BackendUrlRow, pending, team_urls, is_table, mark_scraped}
use sport_crawl.Queue.PlayerInfo.{Database}
use sport_crawl.Crawl.Loops.{
  exhausted, restart, cooldown_required, raises, cancelled, going_on, Result, stop,
}
use sport_crawl.Teams.Claim.{claim_next_filtered}

-- What an attempt can raise: BrowserException, another Exception, or a cancellation.
pub data Failure : Type 0 where
  browser other : String → Failure
  cancellation : Failure

-- What an attempt meets: what the scrape raises; the session of mark_scraped; what the upsert of the
-- teams raises, and the new row of tbl_team_urls, with its id and its URL, for each team that has a
-- URL and no such row (none, where that INSERT fails, which is only logged); the session of the
-- upsert and mark_done, and what its commit raises.
pub record Attempt : Type 0 where
  pub scrape : Option Failure
  pub marking : Session
  pub upsert : Option Failure
  pub new_team_urls : List (ℕ × String)
  pub session : Session
  pub commit : Option Failure

-- A statement on the URL registry in a session of its own, whose exceptions are logged only.
abbrev pub keep_backend : Option Backend → Database → Database
keep_backend none db = db
keep_backend (some backend) db = record db { backend = backend }

abbrev pub logged : Bool → Option Backend → Database → Database
logged true after db = keep_backend after db
logged false after db = db

abbrev pub backend_scraped : Option ℕ → Session → Database → Database
backend_scraped none session db = db
backend_scraped (some url_id) session db =
    logged session.reachable (mark_scraped "tbl_team_urls" url_id "SUCCESS" session.now db.backend)
      db

abbrev pub backend_failed : Option ℕ → String → Session → Database → Database
backend_failed none error session db = db
backend_failed (some url_id) error session db =
    logged session.reachable (UrlTable.mark_failed "tbl_team_urls" url_id error 5 db.backend) db

-- The INSERT into tbl_team_urls of TeamsRepository.upsert, ON CONFLICT DO NOTHING.
abbrev pub team_url_row : ℕ → ℕ × String → BackendUrlRow
team_url_row now (id, url) = record {
  id = id;
  url = url;
  url_type = "squad";
  priority = 5;
  next_scrape_at = now;
  fk_country = none;
  cadence_hours = some 168;
  status = pending;
  retry_count = 0;
  last_error = none;
  last_scrape_status = none;
  last_scraped_at = none;
}

abbrev pub insert_team_urls : ℕ → List (ℕ × String) → Backend → Backend
insert_team_urls now new backend table =
    if is_table team_urls table then backend table ++ map (team_url_row now) new else backend table

-- mark_done in the session of the upsert, with the URL tables as the upsert leaves them, and the
-- commit of both.
abbrev pub store_marked :
    Outcome (Unit {0}) × Table → Option Failure → Backend → Database → Option Failure × Database
store_marked (err e, queue) commit backend db = (some (other "RepositoryError"), db)
store_marked (ok _, queue) (some e) backend db = (some e, db)
store_marked (ok _, queue) none backend db = (none, record db { queue = queue; backend = backend })

abbrev pub store_teams :
    Option Failure → ScrapeQueue → Attempt → Database → Option Failure × Database
store_teams (some e) job a db = (some e, db)
store_teams none job a db =
    store_marked (mark_done job.id a.session db.queue) a.commit
      (insert_team_urls a.session.now a.new_team_urls db.backend) db

-- The `try` block.
abbrev pub try_scraped :
    Option Failure → ScrapeQueue → Attempt → Database → Option Failure × Database
try_scraped (some e) job a db = (some e, db)
try_scraped none job a db =
    store_teams a.upsert job a (backend_scraped job.fk_url_registry_id a.marking db)

unfoldable pub try_attempt : ScrapeQueue → Attempt → Database → Option Failure × Database
try_attempt job a db = try_scraped a.scrape job a db

-- How the handling of a job ends: success, a new browser, CooldownRequired, an exception of
-- mark_failed, or a cancellation.
pub data JobEnd : Type 0 where
  succeeded browser_restart cooldown fatal interrupted : JobEnd

-- What a job meets: its attempts; the session in which it is marked as failed, and the one in which
-- its URL is.
pub record Meets : Type 0 where
  pub attempts : ℕ → Attempt
  pub failure : Session
  pub backend_failure : Session

abbrev pub with_queue : Outcome (Unit {0}) × Table → Database → Option Database
with_queue (err e, queue) db = none
with_queue (ok _, queue) db = some (record db { queue = queue })

abbrev pub or_logged : Option Database → Database → Database
or_logged none db = db
or_logged (some after) db = after

module _ (job : ScrapeQueue) (meets : Meets) where
  -- mark_failed on the job, then on its URL; in the branch of a BrowserException an error of the first
  -- is logged, and the second is made all the same.
  abbrev pub mark_job : String → Database → Option Database
  mark_job error db = with_queue (mark_failed job.id error meets.failure db.queue) db

  abbrev pub mark_url : String → Database → Database
  mark_url error db = backend_failed job.fk_url_registry_id error meets.backend_failure db

  abbrev pub or_raised : Option Database → String → JobEnd → Database → JobEnd × Database
  or_raised none error end db = (fatal, db)
  or_raised (some after) error end db = (end, mark_url error after)

  abbrev pub last_attempt : ℕ → String → Database → JobEnd × Database → JobEnd × Database
  last_attempt zero e db again =
      let error = Text.◌++◌ "Exhausted 3 attempts: " e in
      or_raised (mark_job error db) error cooldown db
  last_attempt (suc left) e db again = again

  abbrev pub handle : Option Failure → ℕ → Database → JobEnd × Database → JobEnd × Database
  handle none left db again = (succeeded, db)
  handle (some (browser e)) left db again =
      (browser_restart, mark_url e (or_logged (mark_job e db) db))
  handle (some (other e)) left db again = last_attempt left e db again
  handle (some cancellation) left db again = (interrupted, db)

  -- `for attempt in range(1, max_attempts + 1)`, with the attempts that are left.
  unfoldable pub run_attempts : ℕ → ℕ → Database → JobEnd × Database
  run_attempts zero attempt db = (cooldown, db)
  run_attempts (suc left) attempt db =
      let (failure, db') = try_attempt job (meets.attempts attempt) db in
      handle failure left db' (run_attempts left (attempt + 1) db')

abbrev pub max_attempts : ℕ
max_attempts = 3

pub record Round : Type 0 where
  pub claim : Session
  pub meets : Meets

abbrev pub after_job : JobEnd × Database → ℕ → (ℕ → Database → Result) → Result
after_job (succeeded, db) processed next = next (processed + 1) db
after_job (browser_restart, db) processed next = stop restart processed db
after_job (cooldown, db) processed next = stop cooldown_required processed db
after_job (fatal, db) processed next = stop raises processed db
after_job (interrupted, db) processed next = stop cancelled processed db

abbrev pub after_no_country : JobEnd × Database → ℕ → (ℕ → Database → Result) → Result
after_no_country (fatal, db) processed next = stop raises processed db
after_no_country (_, db) processed next = next processed db

abbrev pub no_country : ScrapeQueue → String
no_country job =
    Text.◌++◌ "fk_country not set on queue row id="
      (Text.◌++◌ (str job.id) (Text.◌++◌ " url=" job.url))

abbrev pub with_country :
    Option String → ScrapeQueue → Round → ℕ → Database → (ℕ → Database → Result) → Result
with_country none job r processed db next =
    after_no_country
      (or_raised job r.meets (mark_job job r.meets (no_country job) db) (no_country job) succeeded
        db)
      processed next
with_country (some fk_country) job r processed db next =
    after_job (run_attempts job r.meets max_attempts 0 db) processed next

abbrev pub claimed_team :
    Outcome (Option ScrapeQueue) × Table → Round → ℕ → Database → (ℕ → Database → Result) → Result
claimed_team (err e, queue) r processed db next = stop raises processed db
claimed_team (ok none, queue) r processed db next = stop exhausted processed db
claimed_team (ok (some job), queue) r processed db next =
    with_country job.fk_country job r processed (record db { queue = queue }) next

unfoldable pub claim_rounds : Option (List String) → List Round → ℕ → Database → Result
claim_rounds country_filter [] processed db = stop going_on processed db
claim_rounds country_filter (r ∷ rest) processed db =
    claimed_team (claim_next_filtered country_filter r.claim db.queue) r processed db
      (λ n db'. claim_rounds country_filter rest n db')

-- The gender map is loaded first, or its SELECT raises.
unfoldable pub run_claim_loop : Bool → Option (List String) → List Round → ℕ → Database → Result
run_claim_loop loads country_filter rounds processed db =
    if loads then claim_rounds country_filter rounds processed db else stop raises processed db
