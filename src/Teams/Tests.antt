-- ===== src/Teams/Tests.antt =====
-- The theorems about the team_list workers on a queue of two jobs.
use sport_crawl.Prelude.{
  ℕ, true, false, Option, none, some, String, [], ◌∷◌, refl, inr, arith, ◌==◌, if◌then◌else◌,
}
use sport_crawl.Queue.Table.{pending, ScrapeQueue, Session, find}
use sport_crawl.Queue.UrlTable.{country_squad_urls}
use sport_crawl.Queue.PlayerInfo.{Database}
use sport_crawl.Teams.Loop.{Round, other, run_claim_loop}
use sport_crawl.Queue.Head.{IsHead}
use sport_crawl.Teams.Registry.{IsKept, run_claim_loop-IsKept}
use sport_crawl.Teams.Stuck.{IsStuck, run_claim_loop-IsStuck}

abbrev team_job : ℕ → Option String → ScrapeQueue
team_job i fk_country = record {
  id = i;
  url = "https://fbref.com/en/squads/";
  domain = "fbref.com";
  status = pending;
  completed_at = none;
  error_message = none;
  retry_count = 0;
  locked_at = none;
  fk_url_registry_id = some 7;
  job_type = "team_list";
  fk_country = fk_country;
}

abbrev session : Session
session = record { reachable = true; now = 100; locked = λ _. false }

abbrev database : Database
database = record { queue = team_job 4 (some "ESP") ∷ team_job 2 none ∷ []; backend = λ _. [] }

-- The job with a country succeeds at its second attempt.
abbrev round : Round
round = record {
  claim = session;
  meets = record {
    attempts = λ n. record {
      scrape = if n == 0 then some (other "timeout") else none;
      marking = session;
      upsert = none;
      new_team_urls = (31, "https://fbref.com/en/squads/a1/") ∷ [];
      session = session;
      commit = none;
    };
    failure = session;
    backend_failure = session;
  };
}

run_claim_loop-IsKept_example :
    IsKept country_squad_urls refl database
      (run_claim_loop true (some ("ESP" ∷ [])) (round ∷ round ∷ []) 0 database).database
run_claim_loop-IsKept_example =
    run_claim_loop-IsKept country_squad_urls refl true (some ("ESP" ∷ [])) (round ∷ round ∷ []) 0
      database

head : IsHead "team_list" (team_job 2 none) database.queue
unfolding find
head = record {
  unique = λ j. ground arith;
  found = refl;
  waiting = refl;
  least = (inr (omega arith), (inr (omega arith), tt));
}

run_claim_loop-IsStuck_example :
    IsStuck
      (team_job 2 none)
      5
      3
      database.queue
      (run_claim_loop true none (round ∷ round ∷ round ∷ []) 5 database)
run_claim_loop-IsStuck_example =
    run_claim_loop-IsStuck (round ∷ round ∷ round ∷ []) 5 database (team_job 2 none) head refl
      ((refl, refl, refl), ((refl, refl, refl), ((refl, refl, refl), tt)))
