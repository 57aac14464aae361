-- ===== src/Crawl/Startup.antt =====
-- scripts/scrape_player_info.py, _startup_drain: the due profile URLs become waiting jobs, in batches.
use sport_crawl.Prelude.{
  ℕ, zero, suc, ◌+◌, String, Bool, false, Option, none, some, List, [], ◌∷◌, ◌++◌, ◌&&◌, ◌||◌,
  str_eq, ltb, leb, ◌==◌, if◌then◌else◌, select, take, length,
}
use sport_crawl.Queue.Table.{
  pending, done, is_status, ScrapeQueue, Table, Session, update_where, count_where,
}
use sport_crawl.Queue.UrlTable.{BackendUrlRow, UrlTable, is_due}
use sport_crawl.Server.Adapter.{Database, from_url}
use sport_crawl.Teams.Claim.{member}

abbrev pub is_reference : ℕ → Option ℕ → Bool
is_reference i none = false
is_reference i (some j) = j == i

-- ON sq.fk_url_registry_id = bpu.id AND sq.job_type = 'player_info'.
abbrev pub is_link : BackendUrlRow → ScrapeQueue → Bool
is_link b r = str_eq r.job_type "player_info" && is_reference b.id r.fk_url_registry_id

-- The joined rows of one URL that pass sq.id IS NULL OR sq.status = 'DONE'.
abbrev pub done_links : BackendUrlRow → Table → UrlTable
done_links b [] = []
done_links b (r ∷ rest) =
    let later = done_links b rest in if is_status r.status done then b ∷ later else later

abbrev pub left_join : BackendUrlRow → Table → UrlTable
left_join b [] = b ∷ []
left_join b (r ∷ rest) = done_links b (r ∷ rest)

abbrev pub join_all : UrlTable → Table → UrlTable
join_all [] rows = []
join_all (b ∷ rest) rows = left_join b (select (is_link b) rows) ++ join_all rest rows

-- ORDER BY priority, next_scrape_at, id.
abbrev pub precedes : BackendUrlRow → BackendUrlRow → Bool
precedes a b =
    ltb a.priority b.priority
    || (a.priority == b.priority
        && (ltb a.next_scrape_at b.next_scrape_at
            || (a.next_scrape_at == b.next_scrape_at && leb a.id b.id)))

abbrev pub insert_url : BackendUrlRow → UrlTable → UrlTable
insert_url x [] = x ∷ []
insert_url x (r ∷ rest) =
    let later = insert_url x rest in if precedes x r then x ∷ r ∷ rest else r ∷ later

abbrev pub order_urls : UrlTable → UrlTable
order_urls [] = []
order_urls (r ∷ rest) = insert_url r (order_urls rest)

abbrev pub is_profile : ℕ → BackendUrlRow → Bool
is_profile now b = str_eq b.url_type "profile" && is_due now b

unfoldable pub due_candidates : ℕ → ℕ → UrlTable → Table → UrlTable
due_candidates now batch_size urls rows =
    take batch_size (order_urls (join_all (select (is_profile now) urls) rows))

-- The rows during the statement, and the URLs whose rows it has written.
pub record Statement : Type 0 where
  pub database : Database
  pub written : List String

-- The row that ON CONFLICT (url, job_type) meets, and its WHERE clause.
abbrev pub is_key : BackendUrlRow → ScrapeQueue → Bool
is_key b r = str_eq r.url b.url && str_eq r.job_type "player_info"

abbrev pub is_finished : BackendUrlRow → ScrapeQueue → Bool
is_finished b r = is_key b r && is_status r.status done

-- DO UPDATE SET.
abbrev pub rescheduled : BackendUrlRow → ScrapeQueue → ScrapeQueue
rescheduled b r = record r {
  status = pending;
  completed_at = none;
  locked_at = none;
  error_message = none;
  retry_count = 0;
  fk_url_registry_id = some b.id;
}

abbrev pub player_job : BackendUrlRow → ℕ → ScrapeQueue
player_job b id = record (from_url "fbref.com" b.url id) {
  job_type = "player_info";
  fk_url_registry_id = some b.id;
}

abbrev pub wrote : BackendUrlRow → Table → Statement → Statement
wrote b rows s = record {
  database = record { rows = rows; next_id = s.database.next_id + 1 };
  written = b.url ∷ s.written;
}

abbrev pub passed : Statement → Statement
passed s = record s { database = record s.database { next_id = s.database.next_id + 1 } }

-- ON CONFLICT DO UPDATE refuses to write a row twice in one statement.
unfoldable pub insert_candidate : BackendUrlRow → Statement → Option Statement
insert_candidate b s =
    let rows = s.database.rows in
    if member b.url s.written
    then none
    else if count_where (is_key b) rows == 0
    then some (wrote b (rows ++ player_job b s.database.next_id ∷ []) s)
    else if count_where (is_finished b) rows == 0
    then some (passed s)
    else some (wrote b (update_where (is_finished b) (rescheduled b) rows) s)

abbrev pub and_then : Option Statement → (Statement → Option Statement) → Option Statement
and_then none next = none
and_then (some s) next = next s

unfoldable pub insert_candidates : UrlTable → Statement → Option Statement
insert_candidates [] s = some s
insert_candidates (b ∷ rest) s = and_then (insert_candidate b s) (λ s'. insert_candidates rest s')

-- How the drain ends: with its total, or with the exception of a statement. The last one stands for a
-- drain that still runs.
pub data Drained : Type 0 where
  drained : ℕ → Drained
  raised running : Drained

abbrev pub after_batch :
    Option Statement → ℕ → Database → (ℕ → Database → Drained × Database) → Drained × Database
after_batch none total db next = (raised, db)
after_batch (some s) total db next =
    if length s.written == 0
    then (drained total, s.database)
    else next (total + length s.written) s.database

-- One batch, in a session of its own.
abbrev pub run_batch : ℕ → UrlTable → Session → Database → Option Statement
run_batch batch_size urls session db =
    if session.reachable
    then insert_candidates (due_candidates session.now batch_size urls db.rows)
        (record { database = db; written = [] })
    else none

-- `while True`, with the batches that it may still run; `batch` counts them.
unfoldable pub startup_drain :
    ℕ → ℕ → UrlTable → (ℕ → Session) → ℕ → ℕ → Database → Drained × Database
startup_drain zero batch_size urls sessions batch total db = (running, db)
startup_drain (suc fuel) batch_size urls sessions batch total db =
    after_batch (run_batch batch_size urls (sessions batch) db) total db
      (λ n db'. startup_drain fuel batch_size urls sessions (batch + 1) n db')
