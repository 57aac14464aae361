-- ===== src/Server/Adapter.antt =====
-- infrastructure/persistence/adapters/work_queue.py and ScrapeQueue.from_url: a URL becomes a row of
-- scrape_queue in a transaction of its own.
use Prim.Native.String as Text
use sport_crawl.Prelude.{
  ℕ, ◌+◌, String, Bool, true, false, Option, none, some, List, [], ◌∷◌, ◌++◌, ◌&&◌, leb, str_eq,
  if◌then◌else◌,
}
use sport_crawl.Queue.Table.{
  ScrapeStatus, pending, in_progress, done, failed, ScrapeQueue, Table, find,
}
use sport_crawl.Server.Urls.{
  UrlLibrary, Validation, SsrfReason, valid, ssrf, value_error, validate_scrape_url,
}

-- The table with the sequence of its primary key, which no rollback sets back.
pub record Database : Type 0 where
  pub rows : Table
  pub next_id : ℕ

pub record JobRecord : Type 0 where
  pub id : ℕ
  pub url : String
  pub status : String

abbrev pub status_name : ScrapeStatus → String
status_name pending = "PENDING"
status_name in_progress = "IN_PROGRESS"
status_name done = "DONE"
status_name failed = "FAILED"

abbrev pub row_to_record : ScrapeQueue → JobRecord
row_to_record r = record { id = r.id; url = r.url; status = status_name r.status }

pub data EnqueueError : Type 0 where
  duplicate_error database_error bad_url : EnqueueError
  ssrf_error : SsrfReason → EnqueueError

pub data Enqueued : Type 0 where
  enqueued : JobRecord → Enqueued
  refused : EnqueueError → Enqueued

-- What the adapter is built on: the library, and the allowlist of the settings.
pub record Config : Type 0 where
  pub library : UrlLibrary
  pub allowed_hosts : List String

-- The row of ScrapeQueue.from_url with the columns that the database fills.
abbrev pub from_url : String → String → ℕ → ScrapeQueue
from_url domain url id = record {
  id = id;
  url = url;
  domain = domain;
  status = pending;
  completed_at = none;
  error_message = none;
  retry_count = 0;
  locked_at = none;
  fk_url_registry_id = none;
  job_type = "default";
  fk_country = none;
}

-- uq_scrape_queue_url_job_type.
unfoldable pub has_job : String → String → Table → Bool
has_job url job_type [] = false
has_job url job_type (r ∷ rest) =
    let later = has_job url job_type rest in
    if str_eq r.url url && str_eq r.job_type job_type then true else later

-- String(2048) and String(255).
abbrev pub fits : ScrapeQueue → Bool
fits row = leb (Text.count row.url) 2048 && leb (Text.count row.domain) 255

-- add, flush, refresh and commit; the sequence moves on whether the row is kept or not.
abbrev pub insert : Bool → ScrapeQueue → Database → Enqueued × Database
insert reachable row db =
    let used = record db { next_id = db.next_id + 1 } in
    if reachable
    then if fits row
      then if has_job row.url row.job_type db.rows
        then (refused duplicate_error, used)
        else (enqueued (row_to_record row), record used { rows = db.rows ++ (row ∷ []) })
      else (refused database_error, used)
    else (refused database_error, db)

abbrev pub enqueue_valid : Validation → String → Bool → Database → Enqueued × Database
enqueue_valid (valid domain) url reachable db = insert reachable (from_url domain url db.next_id) db
enqueue_valid (ssrf reason) url reachable db = (refused (ssrf_error reason), db)
enqueue_valid value_error url reachable db = (refused bad_url, db)

unfoldable pub enqueue : Config → Bool → String → Database → Enqueued × Database
enqueue config reachable url db =
    enqueue_valid (validate_scrape_url config.library url config.allowed_hosts) url reachable db

abbrev pub as_record : Option ScrapeQueue → Option JobRecord
as_record none = none
as_record (some r) = some (row_to_record r)

unfoldable pub get_job : ℕ → Database → Option JobRecord
get_job job_id db = as_record (find job_id db.rows)
