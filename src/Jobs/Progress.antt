-- ===== src/Jobs/Progress.antt =====
-- infrastructure/jobs/job_loop.py, _process: what becomes of one row.
use sport_crawl.Prelude.{
  ℕ, ◌+◌, ◌<◌, ◌≤◌, String, true, none, some, List, ◌∷◌, ◌≡◌, ◌⊎◌, refl, ◌∙◌, inl, inr, Bool-cases,
  arith, leb, ==_iff,
}
use sport_crawl.Queue.Table.{pending, in_progress, done, failed, ScrapeQueue, Session, find, save}
use sport_crawl.Queue.Table.Writes.{find-save}
use sport_crawl.Queue.Repository.{claimed, completed}
use sport_crawl.Queue.JobRepository.{mark_in_progress, mark_done, mark_failed, failed_row}
use sport_crawl.Jobs.Loop.{
  Provenance, Store, Scrape, page, handled_error, other_error, Finish, finishes, commit_fails,
  Meets, End, vanished, not_started, completed as end_completed, crashed, fail_row_vanished,
  unmarked, marked, record_failure, record_success, scrape_row, process,
}
use sport_crawl.Queue.Table.Totals.{save_twice, find-id}
use sport_crawl.Jobs.Saved.{row_work}

-- The row that is written, for each way in which the processing ends, and the provenance beside it.
abbrev pub IsLeft :
    ScrapeQueue → String → ℕ → ℕ → List Provenance → End → ScrapeQueue → List Provenance → Type 0
IsLeft q url run_id ceiling before end_completed row after =
    (row.status ≡ done)
    × (row.locked_at ≡ none)
    × ((hash : String) × (after
          ≡ record { url = url; outcome = "SUCCESS"; content_hash = hash; run_id = run_id }
            ∷ before))
IsLeft q url run_id ceiling before (marked status) row after =
    (row.status ≡ status)
    × (row.retry_count ≡ q.retry_count + 1)
    × (((status ≡ failed) × (ceiling ≤ q.retry_count + 1))
        ⊎ ((status ≡ pending) × (q.retry_count + 1 < ceiling)))
    × (after ≡ before)
IsLeft q url run_id ceiling before crashed row after = (row.status ≡ in_progress) × (after ≡ before)
IsLeft q url run_id ceiling before unmarked row after =
    (row.status ≡ in_progress) × (after ≡ before)
IsLeft q url run_id ceiling before _ row after = ⊥

-- One write to the row of q, and nothing else.
abbrev pub IsProcessed : ScrapeQueue → String → ℕ → ℕ → Store → End × Store → Type 0
IsProcessed q url run_id ceiling store answer =
    (row : ScrapeQueue) × (row.id ≡ q.id)
    × (answer.1.rows ≡ save row store.rows)
    × IsLeft q url run_id ceiling store.provenance answer.0 row answer.1.provenance

failed_row_ceiling :
    (error : String) (ceiling : ℕ) (session : Session) (q : ScrapeQueue)
    → let row = failed_row error ceiling session q in
      (row.id ≡ q.id)
      × (row.retry_count ≡ q.retry_count + 1)
      × (((row.status ≡ failed) × (ceiling ≤ q.retry_count + 1))
          ⊎ ((row.status ≡ pending) × (q.retry_count + 1 < ceiling)))
failed_row_ceiling error ceiling session q = elim (Bool-cases (leb ceiling (q.retry_count + 1))) [
  | inl last ↦ simp last (refl, refl, inl (refl, ground arith))
  | inr more ↦ simp more (refl, refl, inr (refl, ground arith))
]

module _ (i : ℕ) (q : ScrapeQueue) (store : Store) (found : find i store.rows ≡ some q)
    (first : Session) where
  abbrev claimed_store : Store
  claimed_store = record store { rows = save (claimed first q) store.rows }

  find-claimed : find i (save (claimed first q) store.rows) ≡ some (claimed first q)
  find-claimed =
      find-save i (claimed first q) store.rows
      ∙ simp ((==_iff q.id i).1 (find-id i store.rows q found), found) refl

  record_failure-IsProcessed :
      (url error : String) (run_id ceiling : ℕ) (failure : Session)
      → IsProcessed q url run_id ceiling store
          (record_failure i error ceiling failure claimed_store)
  unfolding record_failure mark_failed
  record_failure-IsProcessed url error run_id ceiling failure =
      elim (Bool-cases failure.reachable) [
        | inl up ↦
            let row = failed_row error ceiling failure (claimed first q) in
            let (same_id, retries, status) =
              failed_row_ceiling error ceiling failure (claimed first q) in
            simp (up, find-claimed)
              (
                row,
                same_id,
                save_twice row (claimed first q) store.rows same_id,
                (refl, retries, status, refl),
              )
        | inr down ↦ simp down (claimed first q, refl, refl, (refl, refl))
      ]

  record_success-IsProcessed :
      (url hash : String) (run_id ceiling : ℕ) (finish : Finish) (failure : Session)
      → IsProcessed q url run_id ceiling store (
          record_success
            (claimed first q)
            i
            (record { url = url; outcome = "SUCCESS"; content_hash = hash; run_id = run_id })
            ceiling
            finish
            failure
            claimed_store)
  unfolding record_success mark_done
  record_success-IsProcessed url hash run_id ceiling commit_fails failure =
      (claimed first q, refl, refl, (refl, refl))
  record_success-IsProcessed url hash run_id ceiling (finishes session error) failure =
      elim (Bool-cases session.reachable) [
        | inl up ↦
            let row = completed session (claimed first q) in
            simp up (
              row,
              refl,
              save_twice row (claimed first q) store.rows refl,
              (refl, refl, (hash, refl)),
            )
        | inr down ↦ simp down (record_failure-IsProcessed url error run_id ceiling failure)
      ]

  scrape_row-IsProcessed :
      (url : String) (run_id ceiling : ℕ) (meets : Meets) (scrape : Scrape)
      → IsProcessed q url run_id ceiling store
          (scrape_row (claimed first q) i url run_id ceiling meets scrape claimed_store)
  scrape_row-IsProcessed url run_id ceiling meets (page hash) =
      record_success-IsProcessed url hash run_id ceiling meets.finish meets.failure
  scrape_row-IsProcessed url run_id ceiling meets (handled_error error) =
      record_failure-IsProcessed url error run_id ceiling meets.failure
  scrape_row-IsProcessed url run_id ceiling meets other_error =
      (claimed first q, refl, refl, (refl, refl))

-- Processing a row writes that row alone, once it could be claimed: DONE and unlocked with one
-- provenance entry of the run, or, with no entry, one more retry and FAILED exactly at the ceiling,
-- or IN_PROGRESS when the outcome could not be recorded.
pub process-IsProcessed :
    (i : ℕ) (url : String) (run_id ceiling : ℕ) (meets : Meets) (store : Store) (q : ScrapeQueue)
    → meets.first.reachable ≡ true
    → find i store.rows ≡ some q
    → IsProcessed q url run_id ceiling store (process i url run_id ceiling meets store)
unfolding process mark_in_progress
process-IsProcessed i url run_id ceiling meets store q up found =
    simp (up, found)
      (scrape_row-IsProcessed i q store found meets.first url run_id ceiling meets meets.scrape)

pub IsLeft-row_work :
    (q row : ScrapeQueue) (url : String) (run_id ceiling : ℕ) (before after : List Provenance)
    (end : End)
    → q.status ≡ pending
    → IsLeft q url run_id ceiling before end row after
    → row_work ceiling row < row_work ceiling q
unfolding row_work
IsLeft-row_work q row url run_id ceiling before after end_completed p h = ground (arith, h.0)
IsLeft-row_work q row url run_id ceiling before after (marked status) p h =
    ground (arith, h.0, h.1, h.2)
IsLeft-row_work q row url run_id ceiling before after crashed p h = ground (arith, h.0)
IsLeft-row_work q row url run_id ceiling before after unmarked p h = ground (arith, h.0)
IsLeft-row_work q row url run_id ceiling before after vanished p h = absurd h
IsLeft-row_work q row url run_id ceiling before after not_started p h = absurd h
IsLeft-row_work q row url run_id ceiling before after fail_row_vanished p h = absurd h
