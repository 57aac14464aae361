-- ===== src/Queue/Ceiling.antt =====
-- The retry ceiling, in its three places, and rows that are read back after a write.
use sport_crawl.Prelude.{
  ℕ, String, Bool, Option, none, some, [], ◌∷◌, ◌≡◌, refl, arith, if◌then◌else◌, eq_iff, Bool-cases,
  inl, inr, ap,
}
use sport_crawl.Queue.Table.{ScrapeQueue, Table, Session, find, save}
use sport_crawl.Queue.Table.Writes.{find-save}
use sport_crawl.Queue.Repository.{get_job_or_raise}
use sport_crawl.Queue.JobRepository
use sport_crawl.Queue.PlayerInfo
use sport_crawl.Queue.PlayerInfo.{
  Database, is_terminal, record_job_failure, recover_failed_job, recorded, recovered, failed_job,
  restored_job, failed_player_url, apply_failure, reference, linked, update_player_url,
  recover_linked, record_found, recover_found,
}
use sport_crawl.Queue.UrlTable.{BackendUrlRow, UrlTable, find_url, update_url}

pub find-id : (i : ℕ) (t : Table) (r : ScrapeQueue) → find i t ≡ some r → r.id ≡ i
unfolding find
find-id i [] r h = cc
find-id i (q ∷ rest) r h = ground (arith, find-id i rest r)

find_url-id : (i : ℕ) (t : UrlTable) (r : BackendUrlRow) → find_url i t ≡ some r → r.id ≡ i
unfolding find_url
find_url-id i [] r h = cc
find_url-id i (q ∷ rest) r h = ground (arith, find_url-id i rest r)

pub find-save_found :
    (i : ℕ) (row r : ScrapeQueue) (t : Table)
    → row.id ≡ i
    → find i t ≡ some r
    → find i (save row t) ≡ some row
find-save_found i row r t e f = rw find-save (ground arith)

-- An UPDATE of the row with an id, read back.
pub find_url-update_url :
    (test : BackendUrlRow → Bool) (change : BackendUrlRow → BackendUrlRow) (i : ℕ) (t : UrlTable)
    (r : BackendUrlRow)
    → ((x : BackendUrlRow) → (change x).id ≡ x.id)
    → find_url i t ≡ some r
    → find_url i (update_url test change i t) ≡ some (if test r then change r else r)
unfolding find_url update_url
find_url-update_url test change i [] r keep h = cc
find_url-update_url test change i (q ∷ rest) r keep h =
    ground (arith, keep q, find_url-update_url test change i rest r keep)

retried_row-eq :
    (error : String) (ceiling : ℕ) (s : Session) (r : ScrapeQueue)
    → PlayerInfo.retried_row error ceiling s r ≡ JobRepository.failed_row error ceiling s r
unfolding is_terminal
retried_row-eq error ceiling s r = ground arith

unlinked_queue :
    (o : Option ℕ) (r : ScrapeQueue) (error : String) (ceiling : ℕ) (s : Session) (db : Database)
    → o ≡ none
    → (apply_failure (reference o db) r error ceiling s db).1.queue
      ≡ save (JobRepository.failed_row error ceiling s r) db.queue
unlinked_queue none r error ceiling s db e = refl
unlinked_queue (some i) r error ceiling s db e = absurd (cc)

-- JobLoop's mark_failed, the player_info repository's mark_failed and record_job_failure, each with
-- its own form of the ceiling test, write the same row for the same failure.
pub mark_failed_agree :
    (job_id : ℕ) (error : String) (ceiling : ℕ) (s : Session) (db : Database) (row : ScrapeQueue)
    → find job_id db.queue ≡ some row
    → row.job_type ≡ "player_info"
    → row.fk_url_registry_id ≡ none
    → ((PlayerInfo.mark_failed job_id error ceiling s db.queue).1
        ≡ (JobRepository.mark_failed row error ceiling s db.queue).1)
      × ((record_job_failure job_id error ceiling s db).1.queue
          ≡ (JobRepository.mark_failed row error ceiling s db.queue).1)
unfolding PlayerInfo.mark_failed JobRepository.mark_failed record_job_failure
mark_failed_agree job_id error ceiling s db row h kind link = elim (Bool-cases s.reachable) [
  | inl up ↦ (
    simp up
        (rw (h, get_job_or_raise) (ap (λ r. save r db.queue) (retried_row-eq error ceiling s row))),
    simp up (
        rw h (
          rw ((eq_iff row.job_type "player_info").1 kind)
            (unlinked_queue row.fk_url_registry_id row error ceiling s db link))),
  )
  | inr down ↦ (simp down, simp down)
]
