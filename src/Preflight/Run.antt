-- ===== src/Preflight/Run.antt =====
-- core/preflight/__init__.py, run_checks: the checks in their order, the migrations, the early ends.
use sport_crawl.Prelude.{
  ℕ, String, Bool, true, false, Option, none, some, List, [], ◌∷◌, ◌++◌, ◌&&◌, ◌||◌, not,
  if◌then◌else◌,
}
use sport_crawl.Preflight.Checks.{
  CheckResult, Phase, countries, check_db_reachable, check_alembic_initialized, check_schemas_exist,
  check_tables_exist, check_seed_data, check_country_squads_data, check_stale_queue,
  check_competitions_data,
}

-- What the queries answer, check by check, and whether `alembic upgrade heads` succeeds.
pub record World : Type 0 where
  pub connects : Bool
  pub initialized : Option Bool
  pub schemas : Option ℕ
  pub table_exists : String → Option Bool
  pub seed : Option ℕ
  pub squads : Option (Option ℕ)
  pub competitions : Option ℕ
  pub stale : Option ℕ
  pub migrates : Bool

-- How run_checks ends: its results, an exception of a check, or the SystemExit of the migrations.
pub data Ending : Type 0 where
  returns : List CheckResult → Ending
  raises : Ending
  exits : Ending

-- The ending, and whether the migrations were started.
pub record Report : Type 0 where
  pub ending : Ending
  pub migrated : Bool

abbrev pub is_blocking : CheckResult → Bool
is_blocking result = not result.passed && result.fatal

abbrev pub any_blocking : List CheckResult → Bool
any_blocking [] = false
any_blocking (r ∷ rest) = let later = any_blocking rest in is_blocking r || later

-- The loop over check_fns; `next` is what follows it.
unfoldable pub run_fatal :
    List (Option CheckResult) → List CheckResult → (List CheckResult → Report) → Report
run_fatal [] results next = next results
run_fatal (none ∷ rest) results next = record { ending = raises; migrated = false }
run_fatal (some result ∷ rest) results next =
    let later = run_fatal rest (results ++ (result ∷ [])) next in
    if is_blocking result
    then record { ending = returns (results ++ (result ∷ [])); migrated = false }
    else later

-- The checks of a block whose failures do not end it.
unfoldable pub run_all : List (Option CheckResult) → List CheckResult → Option (List CheckResult)
run_all [] results = some results
run_all (none ∷ rest) results = none
run_all (some result ∷ rest) results = run_all rest (results ++ (result ∷ []))

abbrev pub has_seed : Phase → Bool
has_seed countries = false
has_seed _ = true

abbrev pub fatal_checks : Phase → World → List (Option CheckResult)
fatal_checks phase world =
    check_db_reachable world.connects
    ∷ check_alembic_initialized world.initialized
    ∷ check_schemas_exist world.schemas
    ∷ check_tables_exist phase world.table_exists
    ∷ []

abbrev pub seed_checks : Phase → World → List (Option CheckResult)
seed_checks phase world =
    check_seed_data phase world.seed
    ∷ check_country_squads_data world.squads
    ∷ check_competitions_data world.competitions
    ∷ []

abbrev pub ending_of : Option (List CheckResult) → Ending
ending_of none = raises
ending_of (some results) = returns results

abbrev pub run_stale : World → List CheckResult → Ending
run_stale world results = ending_of (run_all (check_stale_queue world.stale ∷ []) results)

abbrev pub after_seed : World → Option (List CheckResult) → Ending
after_seed world none = raises
after_seed world (some results) =
    if any_blocking results then returns results else run_stale world results

-- From the migrations on.
unfoldable pub after_fatal : Phase → Bool → World → List CheckResult → Report
after_fatal phase with_seed_checks world results = record {
  ending =
      if world.migrates
      then (if with_seed_checks && has_seed phase
          then after_seed world (run_all (seed_checks phase world) results)
          else run_stale world results)
      else exits;
  migrated = true;
}

unfoldable pub run_checks : Phase → Bool → World → Report
run_checks phase with_seed_checks world =
    run_fatal (fatal_checks phase world) [] (after_fatal phase with_seed_checks world)
