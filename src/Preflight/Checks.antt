-- ===== src/Preflight/Checks.antt =====
-- core/preflight/checks.py: each check as a function of what its queries answer. A query that raises
-- is `none`, and so is the check that it ends.
use sport_crawl.Prelude.{
  ℕ, suc, String, Bool, true, false, Option, none, some, List, [], ◌∷◌, ◌++◌, leb, not, str_eq,
  if◌then◌else◌,
}

-- The texts of the results, with the values that stand in them.
pub data Detail : Type 0 where
  text : String → Detail
  counted : ℕ → String → Detail
  missing_tables : List String → Detail
  outdated : Option String → String → Detail
  no_seed : String → Detail
  unreachable_squads : Detail

pub record CheckResult : Type 0 where
  pub name : String
  pub passed : Bool
  pub detail : Detail
  pub fatal : Bool

pub data Phase : Type 0 where
  countries players player_info club_teams : Phase

abbrev pub revision_order : List String
revision_order =
    "134f2e68682a" ∷ "a3f8c1d29e5b" ∷ "5ab3b4f7d8a7" ∷ "p8a_lockdown_public"
    ∷ "p8b_create_sch_fbref_shared" ∷ "p8c_create_sch_fbref_football" ∷ "p10a_create_country_tables"
    ∷ "p10b_refactor_country_pk" ∷ "p10c_drop_public_schema" ∷ "p10d_add_fk_ondelete" ∷ "p11a"
    ∷ "p11b" ∷ "p11c" ∷ "p11d" ∷ "p11e" ∷ "p14a" ∷ "p14b" ∷ "p14c" ∷ "p14d" ∷ "p14e" ∷ "p14f"
    ∷ "p14g" ∷ "p14h" ∷ "p14i" ∷ "p14j" ∷ "p14k" ∷ "p14l" ∷ "p14m" ∷ "p15a" ∷ "p16a" ∷ "p16b"
    ∷ "p17a" ∷ "p18a" ∷ "p19a" ∷ "p20a" ∷ "p21a" ∷ "p22a" ∷ "p23a" ∷ "p24a" ∷ "p25a" ∷ "p26a"
    ∷ "p27a" ∷ "p28a" ∷ "p29a" ∷ "p30a" ∷ "p31a" ∷ "p32a" ∷ "p33a" ∷ "p34a" ∷ "p35a" ∷ "p36a"
    ∷ "p37a" ∷ []

-- list.index, which raises ValueError on a missing item.
unfoldable pub index : String → List String → Option ℕ
index item [] = none
index item (x ∷ rest) =
    let later = index item rest in
    if str_eq x item then some 0 else elim later [ none ↦ none | some i ↦ some (suc i) ]

abbrev pub is_later : Option ℕ → Option ℕ → Bool
is_later (some current) (some minimum) = leb minimum current
is_later _ _ = false

-- A NULL current revision is in no list either.
abbrev pub index_of : Option String → List String → Option ℕ
index_of none order = none
index_of (some revision) order = index revision order

unfoldable pub revision_gte : Option String → String → Bool
revision_gte current minimum =
    is_later (index_of current revision_order) (index minimum revision_order)

abbrev pub countries_tables : List String
countries_tables =
    "sch_fbref_infra.scrape_queue" ∷ "sch_fbref_shared.tbl_confederations"
    ∷ "sch_fbref_shared.tbl_gender" ∷ "sch_fbref_shared.tbl_countries" ∷ []

abbrev pub players_tables : List String
players_tables =
    countries_tables
    ++ ("sch_fbref_shared.tbl_players" ∷ "sch_fbref_shared.tbl_player_positions"
        ∷ "sch_fbref_infra.player_discovery_batch" ∷ "sch_fbref_infra.player_queue_ref"
        ∷ "sch_fbref_shared.tbl_country_squads" ∷ [])

abbrev pub phase_tables : Phase → List String
phase_tables countries = countries_tables
phase_tables players = players_tables
phase_tables player_info =
    players_tables
    ++ ("sch_fbref_shared.tbl_player_info" ∷ "sch_fbref_shared.tbl_player_photo" ∷ [])
phase_tables club_teams =
    players_tables ++ ("sch_fbref_shared.tbl_competition" ∷ "sch_fbref_shared.tbl_teams" ∷ [])

abbrev pub verdict : String → Bool → Bool → Detail → Detail → CheckResult
verdict name fatal passed good bad = record {
  name = name;
  passed = passed;
  detail = if passed then good else bad;
  fatal = fatal;
}

-- A connection that raises is this check's failure, not its exception.
unfoldable pub check_db_reachable : Bool → Option CheckResult
check_db_reachable connects = some (
    verdict "DB reachable" true connects (text "Connected successfully.")
      (text "Cannot connect to PostgreSQL. Is Docker running?"))

unfoldable pub check_alembic_initialized : Option Bool → Option CheckResult
check_alembic_initialized none = none
check_alembic_initialized (some exists) = some (
    verdict "Alembic initialized" true exists (text "Migrations initialized successfully.")
      (text "Fresh database detected — migrations have never run."))

unfoldable pub check_alembic_revision : String → Option (Option String) → Option CheckResult
check_alembic_revision required_head none = none
check_alembic_revision required_head (some current) = some (
    verdict "Alembic revision" true (revision_gte current required_head)
      (text "Database version up to date.") (outdated current required_head))

-- The number of the two schemas that the query finds.
unfoldable pub check_schemas_exist : Option ℕ → Option CheckResult
check_schemas_exist none = none
check_schemas_exist (some rows) = some (
    verdict "Schemas exist" true (leb 2 rows) (text "Database schemas verified.")
      (text "One or more required schemas are missing."))

-- One query for each table, in their order: the tables that are missing.
unfoldable pub find_missing : (String → Option Bool) → List String → Option (List String)
find_missing exists [] = some []
find_missing exists (table ∷ rest) =
    let later = find_missing exists rest in
    elim (exists table) [
      | none ↦ none
      | some true ↦ later
      | some false ↦ elim later [ none ↦ none | some missing ↦ some (table ∷ missing) ]
    ]

abbrev pub is_empty_list : List String → Bool
is_empty_list [] = true
is_empty_list (_ ∷ _) = false

abbrev pub tables_result : Option (List String) → Option CheckResult
tables_result none = none
tables_result (some missing) = some (
    verdict "Tables exist" true (is_empty_list missing) (text "System tables ready.")
      (missing_tables missing))

unfoldable pub check_tables_exist : Phase → (String → Option Bool) → Option CheckResult
check_tables_exist phase exists = tables_result (find_missing exists (phase_tables phase))

-- `count and count > 0`
abbrev pub is_positive : ℕ → Bool
is_positive count = leb 1 count

abbrev pub seed_label : Phase → String
seed_label player_info = "players"
seed_label _ = "countries"

unfoldable pub check_seed_data : Phase → Option ℕ → Option CheckResult
check_seed_data phase none = none
check_seed_data phase (some count) = some (
    verdict "Seed data" true (is_positive count) (counted count (seed_label phase))
      (no_seed (seed_label phase)))

-- A connection that fails raises; the query's exception is caught here, and is a failure.
unfoldable pub check_country_squads_data : Option (Option ℕ) → Option CheckResult
check_country_squads_data none = none
check_country_squads_data (some none) =
    some (verdict "Country squads" true false unreachable_squads unreachable_squads)
check_country_squads_data (some (some count)) = some (
    verdict "Country squads" true (is_positive count) (counted count "country squads loaded.")
      (text "No country squads found. Seed data required."))

-- Whether the table is there, and its rows.
unfoldable pub check_clubs_data : Option Bool → Option ℕ → Option CheckResult
check_clubs_data none _ = none
check_clubs_data (some false) _ = some (
    verdict "Clubs data" false false (text "")
      (text "Clubs not available yet — domain and scraping pending."))
check_clubs_data (some true) none = none
check_clubs_data (some true) (some count) = some (
    verdict "Clubs data" false (is_positive count) (counted count "clubs loaded.")
      (text "Clubs table exists but is empty."))

unfoldable pub check_stale_queue : Option ℕ → Option CheckResult
check_stale_queue none = none
check_stale_queue (some count) = some (
    verdict "Stale queue" false (not (is_positive count)) (text "No stale jobs found.")
      (counted count "stale jobs found."))

unfoldable pub check_competitions_data : Option ℕ → Option CheckResult
check_competitions_data none = none
check_competitions_data (some count) = some (
    verdict "Competitions data" false (is_positive count)
      (counted count "competitions loaded successfully.")
      (text "No competitions found. Will scrape from FBRef."))
