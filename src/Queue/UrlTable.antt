-- ===== src/Queue/UrlTable.antt =====
-- infrastructure/persistence/repositories/backend_urls.py: the rows of a tbl_*_urls table, their
-- lifecycle, and the statements of BackendUrlRepository on them.
use sport_crawl.Prelude.{
  ℕ, ◌+◌, ◌*◌, String, Bool, true, false, Option, none, some, List, [], ◌∷◌, map, ◌&&◌, ◌||◌, ltb,
  leb, ◌==◌, str_eq, if◌then◌else◌, select, take,
}

-- The values of the status column that the code writes and tests.
pub data UrlStatus : Type 0 where
  pending active stale : UrlStatus

abbrev pub is_url_status : UrlStatus → UrlStatus → Bool
is_url_status pending pending = true
is_url_status active active = true
is_url_status stale stale = true
is_url_status _ _ = false

pub record BackendUrlRow : Type 0 where
  pub id : ℕ
  pub url : String
  pub url_type : String
  pub priority : ℕ
  pub next_scrape_at : ℕ
  pub fk_country : Option String
  pub cadence_hours : Option ℕ
  pub status : UrlStatus
  pub retry_count : ℕ
  pub last_error : Option String
  pub last_scrape_status : Option String
  pub last_scraped_at : Option ℕ

abbrev pub UrlTable : Type 0
UrlTable = List BackendUrlRow

-- The five tables that the whitelist admits; a name that it does not know is `none`, a ValueError.
pub data BackendTable : Type 0 where
  player_urls team_urls competition_urls country_urls country_squad_urls : BackendTable

abbrev pub qualified : String → Option BackendTable
qualified table =
    if str_eq table "tbl_player_urls"
    then some player_urls
    else if str_eq table "tbl_team_urls"
    then some team_urls
    else if str_eq table "tbl_competition_urls"
    then some competition_urls
    else if str_eq table "tbl_country_urls"
    then some country_urls
    else if str_eq table "tbl_country_squad_urls"
    then some country_squad_urls
    else none

-- The five tables themselves.
abbrev pub Backend : Type 0
Backend = BackendTable → UrlTable

-- UPDATE … WHERE id = :row_id AND test.
unfoldable pub update_url :
    (BackendUrlRow → Bool) → (BackendUrlRow → BackendUrlRow) → ℕ → UrlTable → UrlTable
update_url test change row_id [] = []
update_url test change row_id (r ∷ rest) =
    (if r.id == row_id && test r then change r else r) ∷ update_url test change row_id rest

unfoldable pub find_url : ℕ → UrlTable → Option BackendUrlRow
find_url i [] = none
find_url i (r ∷ rest) = if r.id == i then some r else find_url i rest

-- status IN ('PENDING', 'ACTIVE') AND next_scrape_at <= now().
abbrev pub is_due : ℕ → BackendUrlRow → Bool
is_due now r =
    (is_url_status r.status pending || is_url_status r.status active) && leb r.next_scrape_at now

-- ORDER BY priority ASC, next_scrape_at ASC.
abbrev pub comes_first : BackendUrlRow → BackendUrlRow → Bool
comes_first a b =
    ltb a.priority b.priority || (a.priority == b.priority && leb a.next_scrape_at b.next_scrape_at)

pub insert_due : BackendUrlRow → UrlTable → UrlTable
insert_due x [] = x ∷ []
insert_due x (r ∷ rest) = if comes_first x r then x ∷ r ∷ rest else r ∷ insert_due x rest

pub order_due : UrlTable → UrlTable
order_due [] = []
order_due (r ∷ rest) = insert_due r (order_due rest)

-- The rows are read; only tbl_country_squad_urls has a country column to read.
abbrev pub without_country : BackendTable → BackendUrlRow → BackendUrlRow
without_country country_squad_urls r = r
without_country _ r = record r { fk_country = none }

unfoldable pub fetch_due_rows : String → ℕ → ℕ → Backend → Option UrlTable
unfolding order_due insert_due
fetch_due_rows table limit now backend = elim (qualified table) [
  | none ↦ none
  | some t ↦
      some (map (without_country t) (take limit (order_due (select (is_due now) (backend t)))))
]

abbrev pub is_table : BackendTable → BackendTable → Bool
is_table player_urls player_urls = true
is_table team_urls team_urls = true
is_table competition_urls competition_urls = true
is_table country_urls country_urls = true
is_table country_squad_urls country_squad_urls = true
is_table _ _ = false

-- A statement on one of the tables, after the whitelist.
abbrev pub on_table : String → (UrlTable → UrlTable) → Backend → Option Backend
on_table table statement backend = elim (qualified table) [
  | none ↦ none
  | some t ↦ some (λ u. if is_table t u then statement (backend u) else backend u)
]

abbrev pub cadence_or_day : Option ℕ → ℕ
cadence_or_day none = 24
cadence_or_day (some hours) = hours

abbrev pub scraped : String → ℕ → BackendUrlRow → BackendUrlRow
scraped status now r = record r {
  status = active;
  last_scraped_at = some now;
  last_scrape_status = some status;
  next_scrape_at = now + cadence_or_day r.cadence_hours * 3600;
  retry_count = 0;
  last_error = none;
}

unfoldable pub mark_scraped : String → ℕ → String → ℕ → Backend → Option Backend
mark_scraped table row_id status now =
    on_table table (update_url (λ r. true) (scraped status now) row_id)

abbrev pub failed_url : String → ℕ → BackendUrlRow → BackendUrlRow
failed_url error max_retry_count r = record r {
  last_scrape_status = some "FAILURE";
  retry_count = r.retry_count + 1;
  last_error = some error;
  status = if leb max_retry_count (r.retry_count + 1) then stale else r.status;
}

unfoldable pub mark_failed : String → ℕ → String → ℕ → Backend → Option Backend
mark_failed table row_id error max_retry_count =
    on_table table (update_url (λ r. true) (failed_url error max_retry_count) row_id)

abbrev pub recovered_url : ℕ → BackendUrlRow → BackendUrlRow
recovered_url now r = record r {
  status = pending;
  retry_count = 0;
  last_error = none;
  next_scrape_at = now;
}

unfoldable pub recover_stale_url : String → ℕ → ℕ → Backend → Option Backend
recover_stale_url table row_id now =
    on_table table (update_url (λ r. is_url_status r.status stale) (recovered_url now) row_id)
