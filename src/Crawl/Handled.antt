-- ===== src/Crawl/Handled.antt =====
-- scripts/scrape_player_info.py: what the handling of one claimed job leaves in the queue.
use mathlib.Core.Path.{subst}
use sport_crawl.Prelude.{
  ℕ, zero, suc, ◌+◌, ◌<◌, ◌≤◌, String, Option, none, some, ◌≡◌, ◌⊎◌, refl, sym, inl, inr,
  Bool-cases, arith, leb, eq_iff,
}
use sport_crawl.Queue.Table.{pending, done, failed, ScrapeQueue, Session, find, save}
use sport_crawl.Queue.Repository.{mark_done, completed, get_job_or_raise}
use sport_crawl.Queue.UrlTable.{Backend}
use sport_crawl.Queue.PlayerInfo.{
  Database, record_job_failure, apply_failure, reference, Reference, unlinked, dangling, linked,
  failed_job, failed_player_url, update_player_url,
}
use sport_crawl.Crawl.Job.{
  Raised, page_load, rate_limit, browser, unexpected, cancelled, Fetched, page, empty_page,
  fetch_raises, Attempt, commit_store, scraped_backend, store_stats, store_parsed, try_fetched,
  try_attempt, Record, on_record, record_raises, after_report, record_failure_with_retry, JobEnd,
  succeeded, browser_restart, cooldown, skipped, fatal, interrupted, Meets, ending, record_failure,
  handle, run_attempts, max_attempts,
}

-- The job's row is written once, with a success or with a failure below or at the ceiling.
abbrev pub IsDone : ScrapeQueue → Database → Database → Type 0
IsDone q before after =
    (row : ScrapeQueue) × (row.id ≡ q.id)
    × (after.queue ≡ save row before.queue)
    × (row.status ≡ done)
    × (row.locked_at ≡ none)

abbrev pub IsFailed : ScrapeQueue → ℕ → Database → Database → Type 0
IsFailed q ceiling before after =
    (row : ScrapeQueue) × (row.id ≡ q.id)
    × (after.queue ≡ save row before.queue)
    × (row.retry_count ≡ q.retry_count + 1)
    × (row.locked_at ≡ none)
    × (((row.status ≡ failed) × (ceiling ≤ q.retry_count + 1))
        ⊎ ((row.status ≡ pending) × (q.retry_count + 1 < ceiling)))

abbrev pub IsHandled : ScrapeQueue → ℕ → Database → JobEnd × Database → Type 0
IsHandled q ceiling before (succeeded, after) = IsDone q before after
IsHandled q ceiling before (browser_restart, after) = IsFailed q ceiling before after
IsHandled q ceiling before (cooldown, after) = IsFailed q ceiling before after
IsHandled q ceiling before (skipped, after) = IsFailed q ceiling before after
IsHandled q ceiling before (fatal, after) = after ≡ before
IsHandled q ceiling before (interrupted, after) = after ≡ before

abbrev IsTried : ScrapeQueue → Database → Option Raised × Database → Type 0
IsTried q before (none, after) = IsDone q before after
IsTried q before (some e, after) = after ≡ before

abbrev IsRecorded : ScrapeQueue → ℕ → Database → Record × Database → Type 0
IsRecorded q ceiling before (on_record, after) = IsFailed q ceiling before after
IsRecorded q ceiling before (record_raises, after) = after ≡ before

module _ (q : ScrapeQueue) (db : Database) (found : find q.id db.queue ≡ some q)
    (kind : q.job_type ≡ "player_info") where
  commit_store-IsTried :
      (backend : Option Backend) (commit : Option Raised) (s : Session)
      → IsTried q db (commit_store backend commit (save (completed s q) db.queue) db)
  commit_store-IsTried none commit s = refl
  commit_store-IsTried (some backend) (some e) s = refl
  commit_store-IsTried (some backend) none s = (completed s q, refl, refl, refl, refl)

  store_stats-IsTried :
      (stats : Option Raised) (a : Attempt) (s : Session)
      → IsTried q db (store_stats stats q a (save (completed s q) db.queue) db)
  store_stats-IsTried (some e) a s = refl
  store_stats-IsTried none a s =
      commit_store-IsTried (scraped_backend q.fk_url_registry_id a.session db.backend) a.commit s

  store_parsed-IsTried :
      (parsed : Option Raised) (a : Attempt) → IsTried q db (store_parsed parsed q a db)
  unfolding mark_done
  store_parsed-IsTried (some e) a = refl
  store_parsed-IsTried none a = elim (Bool-cases a.session.reachable) [
    | inl up ↦ simp up (rw (found, get_job_or_raise) (store_stats-IsTried a.stats a a.session))
    | inr down ↦ simp down refl
  ]

  try_attempt-IsTried : (a : Attempt) → IsTried q db (try_attempt q a db)
  unfolding try_attempt
  try_attempt-IsTried a = go a.fetched
    where
      go : (f : Fetched) → IsTried q db (try_fetched f q a db)
      go page = store_parsed-IsTried a.parsed a
      go empty_page = refl
      go (fetch_raises e) = refl

  failed_job-IsFailed :
      (error : String) (ceiling : ℕ) (s : Session) (backend : Backend)
      → IsFailed q ceiling db
          (record { queue = save (failed_job error ceiling s q) db.queue; backend = backend })
  failed_job-IsFailed error ceiling s backend = (
    failed_job error ceiling s q,
    ground arith,
    refl,
    ground arith,
    ground arith,
    elim (Bool-cases (leb ceiling (q.retry_count + 1))) [
      | inl last ↦ inl (ground arith, ground arith)
      | inr more ↦ inr (ground arith, ground arith)
    ],
  )

  apply_failure-IsRecorded :
      (r : Reference) (error : String) (ceiling : ℕ) (s : Session)
      (again : Database → Record × Database)
      → IsRecorded q ceiling db (after_report (apply_failure r q error ceiling s db) again)
  apply_failure-IsRecorded dangling error ceiling s again = refl
  apply_failure-IsRecorded unlinked error ceiling s again =
      failed_job-IsFailed error ceiling s db.backend
  apply_failure-IsRecorded (linked u) error ceiling s again = failed_job-IsFailed error ceiling s (
      update_player_url
        (failed_player_url error (q.retry_count + 1) (leb ceiling (q.retry_count + 1))) u.id
        db.backend)

  record_failure_with_retry-IsRecorded :
      (left attempt : ℕ) (error : String) (ceiling : ℕ) (sessions : ℕ → Session)
      → IsRecorded q ceiling db
          (record_failure_with_retry left attempt q.id error ceiling sessions db)
  unfolding record_failure_with_retry record_job_failure
  record_failure_with_retry-IsRecorded zero attempt error ceiling sessions = refl
  record_failure_with_retry-IsRecorded (suc left) attempt error ceiling sessions =
      elim (Bool-cases (sessions attempt).reachable) [
        | inl up ↦
            simp (up, found, (eq_iff q.job_type "player_info").1 kind)
              (apply_failure-IsRecorded (reference q.fk_url_registry_id db) error ceiling
                (sessions attempt)
                (λ db'.
                  record_failure_with_retry left (attempt + 1) q.id error ceiling sessions db'))
        | inr down ↦
            simp down
              (record_failure_with_retry-IsRecorded left (attempt + 1) error ceiling sessions)
      ]

  ending-IsHandled :
      (e : JobEnd) (ceiling : ℕ) (r : Record × Database)
      → ((after : Database) → IsFailed q ceiling db after → IsHandled q ceiling db (e, after))
      → IsRecorded q ceiling db r
      → IsHandled q ceiling db (ending e r)
  ending-IsHandled e ceiling (on_record, after) handled h = handled after h
  ending-IsHandled e ceiling (record_raises, after) handled h = h

  module _ (ceiling : ℕ) (meets : Meets) where
    record_failure-IsHandled :
        (e : JobEnd) (error : String)
        → ((after : Database) → IsFailed q ceiling db after → IsHandled q ceiling db (e, after))
        → IsHandled q ceiling db (record_failure q ceiling meets e error db)
    record_failure-IsHandled e error handled =
        ending-IsHandled e ceiling
          (record_failure_with_retry max_attempts 0 q.id error ceiling meets.failures db) handled
          (record_failure_with_retry-IsRecorded max_attempts 0 error ceiling meets.failures)

    handle-IsHandled :
        (o : Option Raised) (left : ℕ) (db' : Database) (again : JobEnd × Database)
        → IsTried q db (o, db')
        → ((k : ℕ) → left ≡ suc k → db' ≡ db → IsHandled q ceiling db again)
        → IsHandled q ceiling db (handle q ceiling meets o left db' again)
    handle-IsHandled none left db' again tried h = tried
    handle-IsHandled (some (page_load e)) zero db' again tried h =
        rw tried (record_failure-IsHandled cooldown e (λ after f. f))
    handle-IsHandled (some (page_load e)) (suc left) db' again tried h = h left refl tried
    handle-IsHandled (some (rate_limit e)) zero db' again tried h =
        rw tried (record_failure-IsHandled cooldown e (λ after f. f))
    handle-IsHandled (some (rate_limit e)) (suc left) db' again tried h = h left refl tried
    handle-IsHandled (some (browser e)) left db' again tried h =
        rw tried (record_failure-IsHandled browser_restart e (λ after f. f))
    handle-IsHandled (some (unexpected e)) left db' again tried h =
        rw tried (record_failure-IsHandled skipped e (λ after f. f))
    handle-IsHandled (some cancelled) left db' again tried h = tried

    run_attempts_step :
        (left attempt : ℕ)
        → ((k : ℕ)
            → left ≡ suc k
            → IsHandled q ceiling db (run_attempts q ceiling meets left (attempt + 1) db))
        → IsHandled q ceiling db (run_attempts q ceiling meets (suc left) attempt db)
    unfolding run_attempts
    run_attempts_step left attempt later =
        let raises = (try_attempt q (meets.attempts attempt) db).0 in
        let db' = (try_attempt q (meets.attempts attempt) db).1 in
        handle-IsHandled raises left db' (run_attempts q ceiling meets left (attempt + 1) db')
          (try_attempt-IsTried (meets.attempts attempt))
          (λ k e same.
            subst (λ x. IsHandled q ceiling db (run_attempts q ceiling meets left (attempt + 1) x))
              (sym same) (later k e))

    -- Handling a claimed player_info job, with at least one attempt left, writes its row once: DONE on
    -- success; on a browser error, three page or rate-limit errors, or an unexpected one, the failure
    -- with one more retry, FAILED exactly at the ceiling; or nothing, when the failure could not be
    -- recorded in three tries or the worker was cancelled.
    pub run_attempts-IsHandled :
        (left attempt : ℕ)
        → IsHandled q ceiling db (run_attempts q ceiling meets (suc left) attempt db)
    run_attempts-IsHandled zero attempt = run_attempts_step zero attempt (λ k e. absurd (cc))
    run_attempts-IsHandled (suc left) attempt =
        run_attempts_step (suc left) attempt (λ k e. run_attempts-IsHandled left (attempt + 1))
