-- ===== src/Players/Tests.antt =====
-- The theorems about the player_list workers on small queues.
use sport_crawl.Prelude.{
  String, All, length, ◌≡◌, ◌+◌, List, ℕ, true, false, none, some, [], ◌∷◌, refl, inr, arith,
}
use sport_crawl.Queue.Table.{pending, ScrapeQueue, Session, find}
use sport_crawl.Queue.Head.{IsHead}
use sport_crawl.Queue.PlayerInfo.{Database}
use sport_crawl.Players.Loop.{Round, other, run_sessions}
use sport_crawl.Server.Adapter as Adapter
use sport_crawl.Players.Seeding.{seed_queue}
use sport_crawl.Players.Seeded.{IsSeeded, seed_queue-IsSeeded}
use sport_crawl.Players.Blocked.{IsFailing, IsBlocked, run_sessions-IsBlocked}

abbrev list_job : ℕ → ScrapeQueue
list_job i = record {
  id = i;
  url = "https://fbref.com/en/country/players/ESP/";
  domain = "fbref.com";
  status = pending;
  completed_at = none;
  error_message = none;
  retry_count = 0;
  locked_at = none;
  fk_url_registry_id = some i;
  job_type = "player_list";
  fk_country = none;
}

abbrev session : Session
session = record { reachable = true; now = 100; locked = λ _. false }

abbrev database : Database
database = record { queue = list_job 4 ∷ list_job 2 ∷ []; backend = λ _. [] }

abbrev round : Round
round = record {
  claim = session;
  meets = record {
    attempts = λ n. record {
      scrape = some (other "timeout");
      marking = session;
      session = session;
      commit = none;
    };
    failure = session;
    backend_failure = session;
  };
}

failing : IsFailing 2 round
failing = record {
  claims = refl;
  free = refl;
  marks = refl;
  errors = λ n. "timeout";
  first = refl;
  second = refl;
  third = refl;
}

head : IsHead "player_list" (list_job 2) database.queue
unfolding find
head = record {
  unique = λ j. ground arith;
  found = refl;
  waiting = refl;
  least = (inr (omega arith), (inr (omega arith), tt));
}

run_sessions-IsBlocked_example :
    IsBlocked
      (list_job 2)
      5
      2
      database.queue
      (run_sessions ((round ∷ []) ∷ (round ∷ []) ∷ []) 5 database)
run_sessions-IsBlocked_example =
    run_sessions-IsBlocked ((round ∷ []) ∷ (round ∷ []) ∷ []) 5 database (list_job 2) head
      (failing, (failing, tt))

abbrev country_urls : List String
country_urls =
    "https://fbref.com/en/country/players/ESP/" ∷ "https://fbref.com/en/country/players/ITA/" ∷ []

abbrev seeded : Adapter.Database
seeded = record { rows = list_job 2 ∷ []; next_id = 3 }

seed_queue-IsSeeded_example :
    let (n, after) = seed_queue country_urls (λ _. session) seeded in
    let (m, later) = seed_queue country_urls (λ _. session) after in
    ((k : ℕ) × (n ≡ some k) × (length after.rows ≡ 1 + k))
    × All (IsSeeded after.rows) country_urls
    × (m ≡ some 0)
    × (later.rows ≡ after.rows)
seed_queue-IsSeeded_example =
    seed_queue-IsSeeded country_urls (λ _. session) (λ _. session) seeded (λ _. refl) (λ _. refl)
