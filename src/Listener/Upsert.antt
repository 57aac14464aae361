-- ===== src/Listener/Upsert.antt =====
-- infrastructure/scheduler/notify_listener.py, _enqueue_row, _handle_payload and _poll_fallback: a
-- due URL becomes a row of scrape_queue, or links the row that is there.
use Prim.Native.String as Text
use sport_crawl.Prelude.{
  ℕ, ◌+◌, String, Bool, true, Option, none, some, List, [], ◌∷◌, ◌++◌, ◌&&◌, not, is_some, str_eq,
  leb, if◌then◌else◌,
}
use sport_crawl.Queue.Table.{ScrapeQueue, Table, update_where}
use sport_crawl.Queue.UrlTable.{BackendUrlRow, UrlTable, Backend, fetch_due_rows}
use sport_crawl.Server.Urls.{Validation, valid, ssrf, value_error, validate_scrape_url}
use sport_crawl.Server.Adapter.{Database, Config, from_url, has_job, fits}

-- _URL_TYPE_TO_JOB_TYPE.
abbrev pub job_type_of : String → Option String
job_type_of url_type =
    if str_eq url_type "profile"
    then some "player_info"
    else if str_eq url_type "squad"
    then some "team_list"
    else if str_eq url_type "clubs"
    then some "team_list"
    else none

-- What data.get reads of a payload.
pub record Payload : Type 0 where
  pub url : String
  pub url_type : String
  pub id : Option ℕ
  pub fk_country : Option String

-- The values of the INSERT.
abbrev pub queue_row : String → Payload → String → ℕ → ScrapeQueue
queue_row domain p job_type id = record (from_url domain p.url id) {
  job_type = job_type;
  fk_url_registry_id = p.id;
  fk_country = p.fk_country;
}

-- ON CONFLICT (url, job_type) … WHERE fk_url_registry_id IS NULL.
abbrev pub is_unlinked : ScrapeQueue → ScrapeQueue → Bool
is_unlinked row r =
    str_eq r.url row.url && str_eq r.job_type row.job_type && not (is_some r.fk_url_registry_id)

-- DO UPDATE SET, with the excluded row.
abbrev pub linked : ScrapeQueue → ScrapeQueue → ScrapeQueue
linked row r = record r { fk_url_registry_id = row.fk_url_registry_id; fk_country = row.fk_country }

unfoldable pub upsert : ScrapeQueue → Table → Table
upsert row rows =
    if has_job row.url row.job_type rows
    then update_where (is_unlinked row) (linked row) rows
    else rows ++ (row ∷ [])

abbrev pub fits_country : Option String → Bool
fits_country none = true
fits_country (some fk_country) = leb (Text.count fk_country) 3

-- String(50) and String(3), besides the columns that every row fills.
abbrev pub fits_columns : ScrapeQueue → Bool
fits_columns row = fits row && (leb (Text.count row.job_type) 50 && fits_country row.fk_country)

-- The statement takes an id of the sequence; a text that is too long is a DataError, here `none`.
abbrev pub execute : ScrapeQueue → Database → Option Database
execute row db =
    if fits_columns row
    then some (record { rows = upsert row db.rows; next_id = db.next_id + 1 })
    else none

abbrev pub enqueue_typed : Option String → String → Payload → Database → Option Database
enqueue_typed none domain p db = some db
enqueue_typed (some job_type) domain p db = execute (queue_row domain p job_type db.next_id) db

-- An SSRFError is logged and skipped; a ValueError of urlparse goes on to the caller.
abbrev pub enqueue_checked : Validation → Payload → Database → Option Database
enqueue_checked (ssrf reason) p db = some db
enqueue_checked value_error p db = none
enqueue_checked (valid domain) p db = enqueue_typed (job_type_of p.url_type) domain p db

unfoldable pub enqueue_row : Config → Payload → Database → Option Database
enqueue_row config p db =
    enqueue_checked (validate_scrape_url config.library p.url config.allowed_hosts) p db

-- A transaction that raises leaves what was there.
abbrev pub committed : Option Database → Database → Database
committed none before = before
committed (some after) before = after

-- A NOTIFY; the payload is none where json.loads fails.
unfoldable pub handle_payload : Config → Option Payload → Database → Database
handle_payload config none db = db
handle_payload config (some p) db = committed (enqueue_row config p db) db

abbrev pub payload_of : BackendUrlRow → Payload
payload_of r = record {
  url = r.url;
  url_type = r.url_type;
  id = some r.id;
  fk_country = r.fk_country;
}

-- The next statement of a transaction, unless one has raised.
abbrev pub and_then : Option Database → (Database → Option Database) → Option Database
and_then none next = none
and_then (some db) next = next db

unfoldable pub enqueue_rows : Config → UrlTable → Database → Option Database
enqueue_rows config [] db = some db
enqueue_rows config (r ∷ rest) db =
    and_then (enqueue_row config (payload_of r) db) (λ db'. enqueue_rows config rest db')

-- The rows of a table, or of one whose query fails, which is passed over.
abbrev pub rows_of : Option UrlTable → UrlTable
rows_of none = []
rows_of (some rows) = rows

abbrev pub backend_tables : List String
backend_tables =
    "tbl_player_urls" ∷ "tbl_team_urls" ∷ "tbl_competition_urls" ∷ "tbl_country_urls"
    ∷ "tbl_country_squad_urls" ∷ []

-- The tables in their order.
unfoldable pub poll_tables :
    Config → (String → Option UrlTable) → List String → Database → Option Database
poll_tables config fetch [] db = some db
poll_tables config fetch (table ∷ rest) db =
    and_then (enqueue_rows config (rows_of (fetch table)) db)
      (λ db'. poll_tables config fetch rest db')

abbrev pub poll_limit : ℕ
poll_limit = 500

-- Whether the poll raises, and the database after it; `reachable` says which queries succeed.
unfoldable pub poll_fallback : Config → ℕ → (String → Bool) → Backend → Database → Bool × Database
poll_fallback config now reachable backend db =
    let after =
      poll_tables config
        (λ t. if reachable t then fetch_due_rows t poll_limit now backend else none) backend_tables
        db in
    (not (is_some after), committed after db)
