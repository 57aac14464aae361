-- ===== src/Preflight/Tests.antt =====
-- The preflight theorems on a database that is ready.
use sport_crawl.Prelude.{true, false, some, List, [], ◌∷◌, ◌≡◌, ◌↔◌}
use sport_crawl.Preflight.Checks.{CheckResult, players, text, counted, verdict}
use sport_crawl.Preflight.Run.{World, run_checks}
use sport_crawl.Preflight.Order.{IsReady, run_checks-IsReady}

abbrev world : World
world = record {
  connects = true;
  initialized = some true;
  schemas = some 2;
  table_exists = λ t. some true;
  seed = some 200;
  squads = some (some 5);
  competitions = some 1;
  stale = some 0;
  migrates = true;
}

run_checks-IsReady_example :
    ((run_checks players true world).migrated ≡ true) ↔ IsReady players world
run_checks-IsReady_example = run_checks-IsReady players world true

abbrev results : List CheckResult
results =
    verdict "DB reachable" true true (text "Connected successfully.") (text "")
    ∷ verdict "Alembic initialized" true true (text "Migrations initialized successfully.")
        (text "")
    ∷ verdict "Schemas exist" true true (text "Database schemas verified.") (text "")
    ∷ verdict "Tables exist" true true (text "System tables ready.") (text "")
    ∷ verdict "Seed data" true true (counted 200 "countries") (text "")
    ∷ verdict "Country squads" true true (counted 5 "country squads loaded.") (text "")
    ∷ verdict "Competitions data" false true (counted 1 "competitions loaded successfully.")
        (text "")
    ∷ verdict "Stale queue" false true (text "No stale jobs found.") (text "")
    ∷ []
