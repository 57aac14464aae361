-- ===== src/Crawl/Tests.antt =====
-- The theorems about the player_info workers on a queue of two jobs.
use sport_crawl.Prelude.{
  String, ℕ, ◌==◌, true, false, none, List, [], ◌∷◌, map, ◌≡◌, refl, if◌then◌else◌, arith,
}
use sport_crawl.Queue.Table.{pending, in_progress, ScrapeQueue, Session, find}
use sport_crawl.Queue.Table.Totals.{IsUnique}
use sport_crawl.Queue.PlayerInfo.{Database}
use sport_crawl.Crawl.Job.{rate_limit, page, fetch_raises, Meets, run_attempts}
use sport_crawl.Crawl.Loops.{
  candidate, sentinel, Round, BufferedRound, run_claim_loop, run_buffered_loop,
}
use sport_crawl.Crawl.Handled.{IsHandled, run_attempts-IsHandled}
use sport_crawl.Crawl.Tidy.{IsTidy, run_claim_loop-IsTidy, run_buffered_loop-IsTidy}
use sport_crawl.Gate.Reopening.{new_system}
use sport_crawl.Worker.Loop.{cooldown_required, exhausted, run}
use sport_crawl.Crawl.Buffered.{
  BufferedStart, build_fails, builds, warm, SessionRound, run_buffered,
}
use sport_crawl.Queue.UrlTable
use sport_crawl.Queue.UrlTable.{BackendUrlRow}
use sport_crawl.Crawl.Startup.{startup_drain}
use sport_crawl.Crawl.Drained.{IsDrained, startup_drain-IsDrained}
use sport_crawl.Crawl.Mirror.{own_actions, to_round, run_buffered-run}
use sport_crawl.Crawl.Quiet.{IsQuiet, run_buffered-IsQuiet}

abbrev job : ℕ → ScrapeQueue
job i = record {
  id = i;
  url = "https://fbref.com/en/players/abc/X";
  domain = "fbref.com";
  status = if i == 1 then in_progress else pending;
  completed_at = none;
  error_message = none;
  retry_count = 0;
  locked_at = none;
  fk_url_registry_id = none;
  job_type = "player_info";
  fk_country = none;
}

abbrev session : Session
session = record { reachable = true; now = 100; locked = λ _. false }

abbrev database : Database
database = record { queue = job 1 ∷ job 2 ∷ job 3 ∷ []; backend = λ _. [] }

-- The first attempt meets a rate limit, the second a page.
abbrev meets : Meets
meets = record {
  attempts = λ n. record {
    fetched = if n == 0 then fetch_raises (rate_limit "429") else page;
    parsed = none;
    stats = none;
    session = session;
    commit = none;
  };
  failures = λ _. session;
}

run_attempts-IsHandled_example :
    IsHandled (job 1) 3 database (run_attempts (job 1) 3 meets 3 0 database)
unfolding find
run_attempts-IsHandled_example = run_attempts-IsHandled (job 1) database refl refl 3 meets 2 0

unique : IsUnique database.queue
unique j = ground arith

abbrev round : Round
round = record { claim = session; step2_done = true; wait_cancelled = false; meets = meets }

run_claim_loop-IsTidy_example :
    IsTidy 1 0 7 (run_claim_loop 3 (round ∷ round ∷ round ∷ []) 7 database)
run_claim_loop-IsTidy_example =
    run_claim_loop-IsTidy 3 (round ∷ round ∷ round ∷ []) 7 database unique

abbrev buffered_round : ℕ → BufferedRound
buffered_round i = record {
  ref = if i == 0 then sentinel else candidate i;
  claim = session;
  has_gate = true;
  is_open = i == 2;
  release = session;
  meets = meets;
}

run_buffered_loop-IsTidy_example :
    IsTidy 1 0 0
      (run_buffered_loop 3 (buffered_round 3 ∷ buffered_round 2 ∷ buffered_round 0 ∷ []) 0 database)
run_buffered_loop-IsTidy_example =
    run_buffered_loop-IsTidy 3 (buffered_round 3 ∷ buffered_round 2 ∷ buffered_round 0 ∷ []) 0
      database unique

abbrev session_round : BufferedStart → SessionRound
session_round start = record { start = start; jitter = 2; sleep_cancelled = false }

-- A start that fails, a session that signals two rate limits and asks for a cooldown, an exhausted one.
abbrev session_rounds : List SessionRound
session_rounds =
    session_round build_fails
    ∷ session_round (builds (warm ((5, true) ∷ (9, false) ∷ []) 4 cooldown_required) false)
    ∷ session_round (builds (warm [] 2 (exhausted 6)) false)
    ∷ []

run_buffered-run_example :
    (own_actions (run_buffered true session_rounds).0, (run_buffered true session_rounds).1)
    ≡ run (map to_round session_rounds)
run_buffered-run_example = run_buffered-run true session_rounds

run_buffered-IsQuiet_example : IsQuiet (run_buffered true session_rounds).0 (new_system 300 60 3)
run_buffered-IsQuiet_example = run_buffered-IsQuiet session_rounds (new_system 300 60 3)

abbrev profile : ℕ → String → BackendUrlRow
profile i url = record {
  id = i;
  url = url;
  url_type = "profile";
  priority = 5;
  next_scrape_at = 90;
  fk_country = none;
  cadence_hours = none;
  status = UrlTable.pending;
  retry_count = 0;
  last_error = none;
  last_scrape_status = none;
  last_scraped_at = none;
}

-- One URL has the waiting job 1, the other has none.
abbrev profiles : List BackendUrlRow
profiles =
    profile 8 "https://fbref.com/en/players/abc/X"
    ∷ profile 9 "https://fbref.com/en/players/d/Y"
    ∷ []

startup_drain-IsDrained_example :
    IsDrained profiles 0 1
      (startup_drain 2 200 profiles (λ _. session) 0 0 (record { rows = job 1 ∷ []; next_id = 2 }))
startup_drain-IsDrained_example =
    startup_drain-IsDrained 200 profiles (λ _. session) 2 0 0
      (record { rows = job 1 ∷ []; next_id = 2 }) (omega arith)
