-- ===== src/Players/Seeding.antt =====
-- scripts/scrape_players.py, _seed_queue: one player_list job for each country URL, in chunks.
use sport_crawl.Prelude.{
  ℕ, zero, suc, ◌+◌, String, Option, none, some, List, [], ◌∷◌, ◌++◌, take, length, if◌then◌else◌,
}
use sport_crawl.Queue.Table.{ScrapeQueue, Session}
use sport_crawl.Server.Adapter.{Database, from_url, has_job}

abbrev pub list_row : String → ℕ → ScrapeQueue
list_row url id = record (from_url "fbref.com" url id) { job_type = "player_list" }

-- ON CONFLICT (url, job_type) DO NOTHING; every row takes an id of the sequence. The number of rows
-- that are inserted, and the database.
unfoldable pub insert_missing : List String → Database → ℕ × Database
insert_missing [] db = (0, db)
insert_missing (url ∷ rest) db =
    let used = record db { next_id = db.next_id + 1 } in
    let kept = insert_missing rest used in
    let (n, db') =
      insert_missing rest (record used { rows = db.rows ++ list_row url db.next_id ∷ [] }) in
    if has_job url "player_list" db.rows then kept else (n + 1, db')

abbrev pub skip : ℕ → List String → List String
skip zero urls = urls
skip (suc n) [] = []
skip (suc n) (url ∷ rest) = skip n rest

abbrev pub chunk_size : ℕ
chunk_size = 8191

-- rows[i : i + size] for i in range(0, len(rows), size); as many chunks as rows are enough.
unfoldable pub chunks : ℕ → ℕ → List String → List (List String)
chunks zero size urls = []
chunks (suc fuel) size [] = []
chunks (suc fuel) size (url ∷ rest) =
    take size (url ∷ rest) ∷ chunks fuel size (skip size (url ∷ rest))

-- Each chunk in a session of its own; the first that fails raises, and the chunks before it stay. The
-- number is `none` when it raises.
abbrev pub add_chunk : ℕ → Option ℕ × Database → Option ℕ × Database
add_chunk n (none, db) = (none, db)
add_chunk n (some m, db) = (some (n + m), db)

unfoldable pub insert_chunks :
    List (List String) → (ℕ → Session) → ℕ → Database → Option ℕ × Database
insert_chunks [] sessions i db = (some 0, db)
insert_chunks (chunk ∷ rest) sessions i db =
    let (n, db') = insert_missing chunk db in
    let later = insert_chunks rest sessions (i + 1) db' in
    if (sessions i).reachable then add_chunk n later else (none, db)

-- An empty list of countries does not touch the database.
unfoldable pub seed_queue : List String → (ℕ → Session) → Database → Option ℕ × Database
seed_queue urls sessions db = insert_chunks (chunks (length urls) chunk_size urls) sessions 0 db
