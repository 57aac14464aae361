-- ===== src/Teams/Claim.antt =====
-- infrastructure/persistence/repositories/team_list_queue.py, class TeamListQueueRepository.
use sport_crawl.Prelude.{
  String, Bool, true, false, Option, none, some, List, [], ◌∷◌, ◌&&◌, ◌||◌, str_eq,
}
use sport_crawl.Queue.Table.{ScrapeQueue, Table, Outcome, Session, repo_error_context, first_row}
use sport_crawl.Queue.Repository.{is_claimable, claim_row}

abbrev pub member : String → List String → Bool
member x [] = false
member x (y ∷ rest) = let later = member x rest in str_eq x y || later

-- fk_country IN (…), which no NULL passes; without a filter every row does.
abbrev pub passes_filter : Option (List String) → Option String → Bool
passes_filter none fk_country = true
passes_filter (some countries) none = false
passes_filter (some countries) (some fk_country) = member fk_country countries

abbrev pub is_eligible : Option (List String) → Session → ScrapeQueue → Bool
is_eligible country_filter session r =
    is_claimable "team_list" session r && passes_filter country_filter r.fk_country

unfoldable pub claim_next_filtered :
    Option (List String) → Session → Table → Outcome (Option ScrapeQueue) × Table
claim_next_filtered country_filter session table =
    repo_error_context "claim_next_filtered" session table
      (claim_row session table (first_row (is_eligible country_filter session) table))

unfoldable pub claim_next : Session → Table → Outcome (Option ScrapeQueue) × Table
claim_next session table = claim_next_filtered none session table
