-- ===== src/Teams/Registry.antt =====
-- scripts/scrape_country_teams.py: what the worker does to the URL registry.
use sport_crawl.Prelude.{
  ℕ, zero, suc, ◌+◌, String, Bool, true, false, Option, none, some, List, [], ◌∷◌, ◌≡◌, refl, ◌∙◌,
  inl, inr, Bool-cases,
}
use Prim.Native.String as Text
use sport_crawl.Queue.Table.{ScrapeQueue, Table, Outcome, ok, err, Session}
use sport_crawl.Queue.Repository.{mark_done, mark_failed}
use sport_crawl.Queue.UrlTable
use sport_crawl.Queue.UrlTable.{
  Backend, BackendTable, player_urls, team_urls, competition_urls, country_urls, country_squad_urls,
  is_table, mark_scraped,
}
use sport_crawl.Queue.PlayerInfo.{Database}
use sport_crawl.Crawl.Loops.{Result}
use sport_crawl.Teams.Claim.{claim_next_filtered}
use sport_crawl.Teams.Loop.{
  Failure, browser, other, cancellation, Attempt, backend_scraped, backend_failed, insert_team_urls,
  store_marked, store_teams, try_scraped, try_attempt, JobEnd, succeeded, browser_restart, cooldown,
  fatal, interrupted, Meets, with_queue, mark_job, mark_url, or_logged, or_raised, last_attempt,
  handle, run_attempts, max_attempts, Round, after_job, after_no_country, with_country,
  claimed_team, claim_rounds, run_claim_loop, no_country,
}

-- The tables of the registry but tbl_team_urls.
module _ (u : BackendTable) (not_teams : is_table team_urls u ≡ false) where
  abbrev pub IsKept : Database → Database → Type 0
  IsKept before after = after.backend u ≡ before.backend u

  backend_scraped-IsKept :
      (url_id : Option ℕ) (s : Session) (db : Database) → IsKept db (backend_scraped url_id s db)
  unfolding mark_scraped
  backend_scraped-IsKept none s db = refl
  backend_scraped-IsKept (some i) s db = elim (Bool-cases s.reachable) [
    | inl up ↦ rw (up, not_teams) refl
    | inr down ↦ rw down refl
  ]

  backend_failed-IsKept :
      (url_id : Option ℕ) (error : String) (s : Session) (db : Database)
      → IsKept db (backend_failed url_id error s db)
  unfolding UrlTable.mark_failed
  backend_failed-IsKept none error s db = refl
  backend_failed-IsKept (some i) error s db = elim (Bool-cases s.reachable) [
    | inl up ↦ rw (up, not_teams) refl
    | inr down ↦ rw down refl
  ]

  insert_team_urls-IsKept :
      (now : ℕ) (new : List (ℕ × String)) (backend : Backend)
      → insert_team_urls now new backend u ≡ backend u
  insert_team_urls-IsKept now new backend = rw not_teams refl

  store_marked-IsKept :
      (o : Outcome (Unit {0})) (queue : Table) (commit : Option Failure) (backend : Backend)
      (db : Database)
      → backend u ≡ db.backend u
      → IsKept db (store_marked (o, queue) commit backend db).1
  store_marked-IsKept (err e) queue commit backend db h = refl
  store_marked-IsKept (ok _) queue (some e) backend db h = refl
  store_marked-IsKept (ok _) queue none backend db h = h

  store_teams-IsKept :
      (upsert : Option Failure) (job : ScrapeQueue) (a : Attempt) (db : Database)
      → IsKept db (store_teams upsert job a db).1
  store_teams-IsKept (some e) job a db = refl
  store_teams-IsKept none job a db =
      let (o, queue) = mark_done job.id a.session db.queue in
      store_marked-IsKept o queue a.commit
        (insert_team_urls a.session.now a.new_team_urls db.backend) db
        (insert_team_urls-IsKept a.session.now a.new_team_urls db.backend)

  try_attempt-IsKept :
      (job : ScrapeQueue) (a : Attempt) (db : Database) → IsKept db (try_attempt job a db).1
  unfolding try_attempt
  try_attempt-IsKept job a db = go a.scrape
    where
      go : (scrape : Option Failure) → IsKept db (try_scraped scrape job a db).1
      go (some e) = refl
      go none =
          store_teams-IsKept a.upsert job a (backend_scraped job.fk_url_registry_id a.marking db)
          ∙ backend_scraped-IsKept job.fk_url_registry_id a.marking db

  or_logged-IsKept :
      (o : Outcome (Unit {0})) (queue : Table) (db : Database)
      → IsKept db (or_logged (with_queue (o, queue) db) db)
  or_logged-IsKept (err e) queue db = refl
  or_logged-IsKept (ok _) queue db = refl

  module _ (job : ScrapeQueue) (meets : Meets) where
    mark_url-IsKept : (error : String) (db : Database) → IsKept db (mark_url job meets error db)
    mark_url-IsKept error db =
        backend_failed-IsKept job.fk_url_registry_id error meets.backend_failure db

    or_raised-IsKept :
        (o : Outcome (Unit {0})) (queue : Table) (error : String) (end : JobEnd) (db : Database)
        → IsKept db (or_raised job meets (with_queue (o, queue) db) error end db).1
    or_raised-IsKept (err e) queue error end db = refl
    or_raised-IsKept (ok _) queue error end db = mark_url-IsKept error (record db { queue = queue })

    marked-IsKept :
        (error : String) (end : JobEnd) (db : Database)
        → IsKept db (or_raised job meets (mark_job job meets error db) error end db).1
    marked-IsKept error end db =
        let (o, queue) = mark_failed job.id error meets.failure db.queue in
        or_raised-IsKept o queue error end db

    last_attempt-IsKept :
        (left : ℕ) (e : String) (db : Database) (again : JobEnd × Database)
        → IsKept db again.1
        → IsKept db (last_attempt job meets left e db again).1
    last_attempt-IsKept zero e db again h =
        marked-IsKept (Text.◌++◌ "Exhausted 3 attempts: " e) cooldown db
    last_attempt-IsKept (suc left) e db again h = h

    handle-IsKept :
        (failure : Option Failure) (left : ℕ) (db : Database) (again : JobEnd × Database)
        → IsKept db again.1
        → IsKept db (handle job meets failure left db again).1
    handle-IsKept none left db again h = refl
    handle-IsKept (some (browser e)) left db again h =
        let (o, queue) = mark_failed job.id e meets.failure db.queue in
        mark_url-IsKept e (or_logged (with_queue (o, queue) db) db) ∙ or_logged-IsKept o queue db
    handle-IsKept (some (other e)) left db again h = last_attempt-IsKept left e db again h
    handle-IsKept (some cancellation) left db again h = refl

    run_attempts-IsKept :
        (left attempt : ℕ) (db : Database) → IsKept db (run_attempts job meets left attempt db).1
    unfolding run_attempts
    run_attempts-IsKept zero attempt db = refl
    run_attempts-IsKept (suc left) attempt db =
        let (failure, db') = try_attempt job (meets.attempts attempt) db in
        handle-IsKept failure left db' (run_attempts job meets left (attempt + 1) db')
          (run_attempts-IsKept left (attempt + 1) db')
        ∙ try_attempt-IsKept job (meets.attempts attempt) db

  module _ (db : Database) (next : ℕ → Database → Result)
      (keeps : (n : ℕ) (after : Database)
        → IsKept db after
        → IsKept db (next n after).database) where
    after_job-IsKept :
        (end : JobEnd) (after : Database) (processed : ℕ)
        → IsKept db after
        → IsKept db (after_job (end, after) processed next).database
    after_job-IsKept succeeded after processed h = keeps (processed + 1) after h
    after_job-IsKept browser_restart after processed h = h
    after_job-IsKept cooldown after processed h = h
    after_job-IsKept fatal after processed h = h
    after_job-IsKept interrupted after processed h = h

    after_no_country-IsKept :
        (end : JobEnd) (after : Database) (processed : ℕ)
        → IsKept db after
        → IsKept db (after_no_country (end, after) processed next).database
    after_no_country-IsKept succeeded after processed h = keeps processed after h
    after_no_country-IsKept browser_restart after processed h = keeps processed after h
    after_no_country-IsKept cooldown after processed h = keeps processed after h
    after_no_country-IsKept fatal after processed h = h
    after_no_country-IsKept interrupted after processed h = keeps processed after h

    claimed_team-IsKept :
        (o : Outcome (Option ScrapeQueue)) (queue : Table) (r : Round) (processed : ℕ)
        → IsKept db (claimed_team (o, queue) r processed db next).database
    claimed_team-IsKept (err e) queue r processed = refl
    claimed_team-IsKept (ok none) queue r processed = refl
    claimed_team-IsKept (ok (some job)) queue r processed = go job.fk_country
      where
        go :
            (country : Option String)
            → IsKept db
                (with_country country job r processed (record db { queue = queue }) next).database
        go none =
            let held = record db { queue = queue } in
            let marked =
              or_raised job r.meets (mark_job job r.meets (no_country job) held) (no_country job)
                succeeded held in
            after_no_country-IsKept marked.0 marked.1 processed
              (marked-IsKept job r.meets (no_country job) succeeded held)
        go (some c) =
            let held = record db { queue = queue } in
            let handled = run_attempts job r.meets max_attempts 0 held in
            after_job-IsKept handled.0 handled.1 processed
              (run_attempts-IsKept job r.meets max_attempts 0 held)

  claim_rounds-IsKept :
      (country_filter : Option (List String)) (rounds : List Round) (processed : ℕ) (db : Database)
      → IsKept db (claim_rounds country_filter rounds processed db).database
  unfolding claim_rounds
  claim_rounds-IsKept country_filter [] processed db = refl
  claim_rounds-IsKept country_filter (r ∷ rest) processed db =
      let (o, queue) = claim_next_filtered country_filter r.claim db.queue in
      claimed_team-IsKept db (λ n after. claim_rounds country_filter rest n after)
        (λ n after h. claim_rounds-IsKept country_filter rest n after ∙ h) o queue r processed

  -- Whatever its rounds meet, the INSERT of the URLs of new teams included, the worker adds to and
  -- changes no URL table but tbl_team_urls: the rows of tbl_country_squad_urls, from which
  -- _notify_all_due seeds its jobs, are never marked scraped or failed by the jobs that they seed.
  pub run_claim_loop-IsKept :
      (loads : Bool) (country_filter : Option (List String)) (rounds : List Round) (processed : ℕ)
      (db : Database)
      → IsKept db (run_claim_loop loads country_filter rounds processed db).database
  unfolding run_claim_loop
  run_claim_loop-IsKept true country_filter rounds processed db =
      claim_rounds-IsKept country_filter rounds processed db
  run_claim_loop-IsKept false country_filter rounds processed db = refl
