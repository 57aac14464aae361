-- ===== src/Jobs/Loop.antt =====
-- infrastructure/jobs/job_loop.py. A row is processed in its transactions one after the other. The
-- rows of a batch, which run as tasks that touch their own rows only, are processed in the order in
-- which gather starts them.
use sport_crawl.Prelude.{
  ℕ, zero, suc, ◌+◌, String, Bool, Option, none, some, List, [], ◌∷◌, length, if◌then◌else◌,
}
use sport_crawl.Queue.Table.{
  ScrapeStatus, ScrapeQueue, Table, RepositoryError, Outcome, ok, err, Session, find,
}
use sport_crawl.Queue.Repository.{claimed}
use sport_crawl.Queue.JobRepository.{list_pending, mark_in_progress, mark_done, mark_failed}

pub record Provenance : Type 0 where
  pub url : String
  pub outcome : String
  pub content_hash : String
  pub run_id : ℕ

pub record Store : Type 0 where
  pub rows : Table
  pub provenance : List Provenance

-- What the scraper does: a page with the hash of its HTML, one of the two errors that the loop
-- handles with its text, or any other exception.
pub data Scrape : Type 0 where
  page : String → Scrape
  handled_error : String → Scrape
  other_error : Scrape

-- The transaction that records the success: its session, with the text of the RepositoryError if
-- its statements do not reach the database; or a commit that fails, which is no RepositoryError.
pub data Finish : Type 0 where
  finishes : Session → String → Finish
  commit_fails : Finish

-- What the processing of one row meets.
pub record Meets : Type 0 where
  pub first : Session
  pub scrape : Scrape
  pub finish : Finish
  pub failure : Session

pub data End : Type 0 where
  vanished not_started completed crashed fail_row_vanished unmarked : End
  marked : ScrapeStatus → End

abbrev pub marked_end : Outcome ScrapeStatus → End
marked_end (ok status) = marked status
marked_end (err _) = unmarked

abbrev pub mark_found : Option ScrapeQueue → String → ℕ → Session → Store → End × Store
mark_found none error ceiling session store = (fail_row_vanished, store)
mark_found (some row) error ceiling session store =
    let (status, rows) = mark_failed row error ceiling session store.rows in
    (marked_end status, record store { rows = rows })

-- The failure record in a session of its own.
unfoldable pub record_failure : ℕ → String → ℕ → Session → Store → End × Store
record_failure row_id error ceiling session store =
    if session.reachable
    then mark_found (find row_id store.rows) error ceiling session store
    else (unmarked, store)

-- Provenance and DONE in one transaction; a RepositoryError rolls both back.
unfoldable pub record_success :
    ScrapeQueue → ℕ → Provenance → ℕ → Finish → Session → Store → End × Store
record_success row row_id prov ceiling commit_fails failure store = (crashed, store)
record_success row row_id prov ceiling (finishes session error) failure store =
    if session.reachable
    then (
      completed,
      record { rows = (mark_done row session store.rows).1; provenance = prov ∷ store.provenance },
    )
    else record_failure row_id error ceiling failure store

-- After the row is IN_PROGRESS.
abbrev pub scrape_row : ScrapeQueue → ℕ → String → ℕ → ℕ → Meets → Scrape → Store → End × Store
scrape_row row row_id url run_id ceiling meets (page hash) store =
    record_success row row_id
      (record { url = url; outcome = "SUCCESS"; content_hash = hash; run_id = run_id }) ceiling
      meets.finish meets.failure store
scrape_row row row_id url run_id ceiling meets (handled_error error) store =
    record_failure row_id error ceiling meets.failure store
scrape_row row row_id url run_id ceiling meets other_error store = (crashed, store)

abbrev pub process_found : Option ScrapeQueue → ℕ → String → ℕ → ℕ → Meets → Store → End × Store
process_found none row_id url run_id ceiling meets store = (vanished, store)
process_found (some row) row_id url run_id ceiling meets store =
    scrape_row (claimed meets.first row) row_id url run_id ceiling meets meets.scrape
      (record store { rows = (mark_in_progress row meets.first store.rows).1 })

unfoldable pub process : ℕ → String → ℕ → ℕ → Meets → Store → End × Store
process row_id url run_id ceiling meets store =
    if meets.first.reachable
    then process_found (find row_id store.rows) row_id url run_id ceiling meets store
    else (not_started, store)

-- gather over the rows of a batch.
unfoldable pub gather : List ScrapeQueue → ℕ → ℕ → (ℕ → Meets) → Store → Store
gather [] run_id ceiling meets store = store
gather (r ∷ rest) run_id ceiling meets store =
    gather rest run_id ceiling meets (process r.id r.url run_id ceiling (meets r.id) store).1

-- A batch: whether the stop event is set before it, the session of list_pending, its run_id, and
-- what each row meets.
pub record Batch : Type 0 where
  pub stopped : Bool
  pub listing : Session
  pub run_id : ℕ
  pub meets : ℕ → Meets

abbrev pub run_rows : Outcome (List ScrapeQueue) → ℕ → Batch → Store → Outcome ℕ × Store
run_rows (err e) ceiling batch store = (err e, store)
run_rows (ok rows) ceiling batch store =
    (ok (length rows), gather rows batch.run_id ceiling batch.meets store)

unfoldable pub run_batch : ℕ → ℕ → Batch → Store → Outcome ℕ × Store
run_batch batch_size ceiling batch store =
    run_rows (list_pending batch_size batch.listing store.rows).0 ceiling batch store

abbrev pub effective_limit : Option ℕ → ℕ → ℕ
effective_limit none max_concurrent_requests = max_concurrent_requests
effective_limit (some limit) max_concurrent_requests = limit

-- JobLoop.run: the same batch, with the run_id as its result.
abbrev pub run_id_of : Outcome ℕ → ℕ → Outcome ℕ
run_id_of (ok _) run_id = ok run_id
run_id_of (err e) run_id = err e

unfoldable pub run : Option ℕ → ℕ → ℕ → Batch → Store → Outcome ℕ × Store
run limit max_concurrent_requests ceiling batch store =
    let (answer, store') =
      run_batch (effective_limit limit max_concurrent_requests) ceiling batch store in
    (run_id_of answer batch.run_id, store')

pub data Drained : Type 0 where
  total : ℕ → Drained
  raises : RepositoryError → Drained
  out_of_fuel : Drained

abbrev pub after_batch : Outcome ℕ → Store → ℕ → (ℕ → Drained × Store) → Drained × Store
after_batch (err e) store sum next = (raises e, store)
after_batch (ok zero) store sum next = (total sum, store)
after_batch (ok (suc n)) store sum next = next (sum + suc n)

-- The `while` of drain, on fuel; batches are numbered from `i`.
unfoldable pub drain_loop : ℕ → ℕ → ℕ → (ℕ → Batch) → ℕ → ℕ → Store → Drained × Store
drain_loop zero batch_size ceiling batches i sum store = (out_of_fuel, store)
drain_loop (suc fuel) batch_size ceiling batches i sum store =
    if (batches i).stopped
    then (total sum, store)
    else (let (answer, store') = run_batch batch_size ceiling (batches i) store in
        after_batch answer store' sum
          (λ sum'. drain_loop fuel batch_size ceiling batches (i + 1) sum' store'))

unfoldable pub drain : ℕ → ℕ → ℕ → (ℕ → Batch) → Store → Drained × Store
drain fuel batch_size ceiling batches store = drain_loop fuel batch_size ceiling batches 0 0 store
