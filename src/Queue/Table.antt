-- ===== src/Queue/Table.antt =====
-- infrastructure/persistence/models/scrape_queue.py and core/exceptions/repository.py: the rows of
-- scrape_queue, the statements that the repositories issue on them, and the errors they raise.
pub mod Order
pub mod Writes
pub mod Totals
use sport_crawl.Prelude.{
  ℕ, String, Bool, true, false, Option, none, some, List, [], ◌∷◌, leb, ◌==◌, if◌then◌else◌, map,
  length, select, head?, take,
}

pub data ScrapeStatus : Type 0 where
  pending in_progress done failed : ScrapeStatus

abbrev pub is_status : ScrapeStatus → ScrapeStatus → Bool
is_status pending pending = true
is_status in_progress in_progress = true
is_status done done = true
is_status failed failed = true
is_status _ _ = false

-- The columns that the code reads or writes; created_at and updated_at are the database's own.
pub record ScrapeQueue : Type 0 where
  pub id : ℕ
  pub url : String
  pub domain : String
  pub status : ScrapeStatus
  pub completed_at : Option ℕ
  pub error_message : Option String
  pub retry_count : ℕ
  pub locked_at : Option ℕ
  pub fk_url_registry_id : Option ℕ
  pub job_type : String
  pub fk_country : Option String

abbrev pub Table : Type 0
Table = List ScrapeQueue

pub data RepositoryError : Type 0 where
  failed_operation : String → RepositoryError
  not_found : String → ℕ → RepositoryError

pub data Outcome {ℓ} (A : Type ℓ) : Type ℓ where
  ok : A → Outcome A
  err : RepositoryError → Outcome A

-- What one transaction meets: whether its statements reach the database, the time, and the rows
-- that other transactions hold locked.
pub record Session : Type 0 where
  pub reachable : Bool
  pub now : ℕ
  pub locked : ℕ → Bool

-- An SQLAlchemyError inside the block becomes a RepositoryError, and the transaction leaves nothing.
abbrev pub repo_error_context {ℓ} :
    {A : Type ℓ} → String → Session → Table → Outcome A × Table → Outcome A × Table
repo_error_context operation session table body =
    if session.reachable then body else (err (failed_operation operation), table)

-- SELECT … WHERE id = i, through the session.
unfoldable pub find : ℕ → Table → Option ScrapeQueue
find i [] = none
find i (r ∷ rest) = if r.id == i then some r else find i rest

-- The flush of a changed row object.
unfoldable pub save : ScrapeQueue → Table → Table
save row [] = []
save row (r ∷ rest) = (if r.id == row.id then row else r) ∷ save row rest

-- UPDATE … SET change WHERE test.
unfoldable pub update_where : (ScrapeQueue → Bool) → (ScrapeQueue → ScrapeQueue) → Table → Table
update_where test change [] = []
update_where test change (r ∷ rest) =
    (if test r then change r else r) ∷ update_where test change rest

-- ORDER BY id.
unfoldable pub insert_by_id : ScrapeQueue → Table → Table
insert_by_id x [] = x ∷ []
insert_by_id x (r ∷ rest) = if leb x.id r.id then x ∷ r ∷ rest else r ∷ insert_by_id x rest

unfoldable pub order_by_id : Table → Table
order_by_id [] = []
order_by_id (r ∷ rest) = insert_by_id r (order_by_id rest)

-- SELECT … WHERE test ORDER BY id LIMIT 1.
abbrev pub first_row : (ScrapeQueue → Bool) → Table → Option ScrapeQueue
first_row test table = head? (take 1 (order_by_id (select test table)))

-- The number of rows that a WHERE clause meets.
abbrev pub count_where : (ScrapeQueue → Bool) → Table → ℕ
count_where test table = length (select test table)

abbrev pub ids : Table → List ℕ
ids = map (λ (r : ScrapeQueue). r.id)
