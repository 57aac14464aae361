-- ===== src/Queue/Retries.antt =====
-- The pair of a player_info job and its URL row: a failure that is recorded, and its recovery.
use mathlib.Core.Path.{subst}
use sport_crawl.Prelude.{
  ℕ, ◌+◌, ◌<◌, ◌≤◌, String, true, none, some, ◌≡◌, ◌⊎◌, refl, arith, if◌then◌else◌, leb, eq_iff,
  Bool-cases, inl, inr, ap, ◌∙◌,
}
use sport_crawl.Queue.Table.{pending, failed, is_status, ScrapeQueue, Session, find, save}
use sport_crawl.Queue.PlayerInfo.{
  Database, record_job_failure, recover_failed_job, recorded, recovered, failed_job, restored_job,
  failed_player_url, apply_failure, reference, linked,
}
use sport_crawl.Queue.UrlTable.{
  BackendUrlRow, UrlTable, player_urls, stale, is_url_status, find_url, update_url,
  recover_stale_url, recovered_url,
}
use sport_crawl.Queue.UrlTable
use sport_crawl.Queue.Ceiling.{find-id, find-save_found, find_url-update_url}

-- recover_failed_job on a FAILED player_info job that is linked to a STALE row.
module _ (job_id : ℕ) (s : Session) (db : Database) (j : ScrapeQueue) (v : BackendUrlRow)
    (up : s.reachable ≡ true) (found : find job_id db.queue ≡ some j)
    (kind : j.job_type ≡ "player_info") (dead : j.status ≡ failed)
    (link : reference j.fk_url_registry_id db ≡ linked v)
    (url_there : find_url v.id (db.backend player_urls) ≡ some v) (gone : v.status ≡ stale) where
  recovered_backend : UrlTable.Backend
  recovered_backend = λ t.
      if UrlTable.is_table player_urls t
      then update_url (λ r. is_url_status r.status stale) (recovered_url s.now) v.id (db.backend t)
      else db.backend t

  recover_failed_job-eq :
      recover_failed_job job_id s db
      ≡ (recovered, record { queue = save (restored_job j) db.queue; backend = recovered_backend })
  unfolding recover_failed_job recover_stale_url recovered_backend
  recover_failed_job-eq =
      let failed? : is_status j.status failed ≡ true = ground arith in
      let stale? : is_url_status v.status stale ≡ true = ground arith in
      simp up (
        rw found (rw ((eq_iff j.job_type "player_info").1 kind) (rw failed? (rw link (rw stale?)))))

  recovered_job : find job_id (recover_failed_job job_id s db).1.queue ≡ some (restored_job j)
  recovered_job =
      rw recover_failed_job-eq
        (find-save_found job_id (restored_job j) j db.queue (find-id job_id db.queue j found) found)

  recovered_url_row :
      find_url v.id ((recover_failed_job job_id s db).1.backend player_urls)
      ≡ some (recovered_url s.now v)
  unfolding recovered_backend
  recovered_url_row = rw recover_failed_job-eq (
      rw
        (find_url-update_url (λ r. is_url_status r.status stale) (recovered_url s.now) v.id
          (db.backend player_urls) v (λ x. refl) url_there)
        (ground arith))

  recovered_url_at :
      (i : ℕ)
      → v.id ≡ i
      → find_url i ((recover_failed_job job_id s db).1.backend player_urls)
        ≡ some (recovered_url s.now v)
  recovered_url_at i e =
      subst
        (λ k.
          find_url k ((recover_failed_job job_id s db).1.backend player_urls)
          ≡ some (recovered_url s.now v))
        e recovered_url_row

-- What is left of a job and its URL row by a failure that was recorded.
pub record FailedPair (job_id : ℕ) (error : String) (ceiling : ℕ) (q : ScrapeQueue)
    (u : BackendUrlRow) (after : Database) : Type 0 where
  pub job : ScrapeQueue
  pub url : BackendUrlRow
  pub job_found : find job_id after.queue ≡ some job
  pub url_found : find_url u.id (after.backend player_urls) ≡ some url
  pub job_count : job.retry_count ≡ q.retry_count + 1
  pub url_count : url.retry_count ≡ q.retry_count + 1
  pub statuses :
      ((ceiling ≤ q.retry_count + 1) × (job.status ≡ failed) × (url.status ≡ stale))
      ⊎ ((q.retry_count + 1 < ceiling) × (job.status ≡ pending) × (url.status ≡ u.status))
  pub job_error : (job.error_message ≡ some error) × (url.last_error ≡ some error)
  pub unlocked : job.locked_at ≡ none
  pub same_link : (job.fk_url_registry_id ≡ q.fk_url_registry_id) × (job.job_type ≡ q.job_type)

module _ (job_id : ℕ) (error : String) (ceiling : ℕ) (s : Session) (db : Database) (q : ScrapeQueue)
    (u : BackendUrlRow) (up : s.reachable ≡ true) (found : find job_id db.queue ≡ some q)
    (kind : q.job_type ≡ "player_info") (link : q.fk_url_registry_id ≡ some u.id)
    (url_there : find_url u.id (db.backend player_urls) ≡ some u) where
  reference-linked : reference q.fk_url_registry_id db ≡ linked u
  reference-linked = cc

  record_job_failure-eq :
      record_job_failure job_id error ceiling s db ≡ apply_failure (linked u) q error ceiling s db
  unfolding record_job_failure
  record_job_failure-eq =
      simp up (rw found (rw ((eq_iff q.job_type "player_info").1 kind) (rw reference-linked)))

  new_url : BackendUrlRow
  new_url = failed_player_url error (q.retry_count + 1) (leb ceiling (q.retry_count + 1)) u

  job_after :
      find job_id (record_job_failure job_id error ceiling s db).1.queue
      ≡ some (failed_job error ceiling s q)
  job_after = rw record_job_failure-eq (
      find-save_found job_id (failed_job error ceiling s q) q db.queue
        (ground (arith, find-id job_id db.queue q found)) found)

  url_after :
      find_url u.id ((record_job_failure job_id error ceiling s db).1.backend player_urls)
      ≡ some new_url
  unfolding new_url
  url_after = rw record_job_failure-eq (
      find_url-update_url (λ r. true) _ u.id (db.backend player_urls) u (λ x. ground arith)
        url_there)

  -- A failure of a player_info job that is linked to a URL row is recorded in both rows at once:
  -- both carry the queue's retry count plus one and the error, the job's lock is cleared, and at
  -- the ceiling the job is FAILED and the URL row STALE, while below it the job is PENDING and the
  -- URL row keeps its status.
  pub record_job_failure_pair :
      ((record_job_failure job_id error ceiling s db).0 ≡ recorded)
      × FailedPair job_id error ceiling q u (record_job_failure job_id error ceiling s db).1
  unfolding new_url
  record_job_failure_pair = (
    rw record_job_failure-eq,
    record {
      job = failed_job error ceiling s q;
      url = new_url;
      job_found = job_after;
      url_found = url_after;
      job_count = ground arith;
      url_count = ground arith;
      statuses = elim (Bool-cases (leb ceiling (q.retry_count + 1))) [
        | inl last ↦ inl (ground arith, ground arith, ground arith)
        | inr more ↦ inr (ground arith, ground arith, ground arith)
      ];
      job_error = ground arith;
      unlocked = ground arith;
      same_link = ground arith;
    },
  )

  -- At the ceiling, recover_failed_job accepts the pair that the recorded failure left, and makes
  -- the job and its URL row PENDING with no retries, no error and no lock.
  pub recover_failed_job-record_job_failure :
      (s' : Session)
      → s'.reachable ≡ true
      → ceiling ≤ q.retry_count + 1
      → let after = recover_failed_job job_id s' (record_job_failure job_id error ceiling s db).1 in
        (after.0 ≡ recovered)
        × (find job_id after.1.queue
            ≡ some (record q {
              status = pending;
              retry_count = 0;
              error_message = none;
              completed_at = none;
              locked_at = none;
            }))
        × (find_url u.id (after.1.backend player_urls)
            ≡ some (record u {
              status = UrlTable.pending;
              retry_count = 0;
              last_error = none;
              last_scrape_status = some "FAILURE";
              next_scrape_at = s'.now;
            }))
  unfolding new_url
  recover_failed_job-record_job_failure s' up' full =
      let after = (record_job_failure job_id error ceiling s db).1 in
      let j = failed_job error ceiling s q in
      let terminal : leb ceiling (q.retry_count + 1) ≡ true = ground arith in
      let dead : j.status ≡ failed = ground arith in
      let gone : new_url.status ≡ stale = ground arith in
      let kind' : j.job_type ≡ "player_info" = ground arith in
      let id : new_url.id ≡ u.id = ground arith in
      let there : find_url new_url.id (after.backend player_urls) ≡ some new_url =
        rw id url_after in
      let link' : reference j.fk_url_registry_id after ≡ linked new_url = ground arith in
      (
        ap (λ x. x.0)
            (recover_failed_job-eq job_id s' after j new_url up' job_after kind' dead link' there
              gone),
        recovered_job job_id s' after j new_url up' job_after kind' dead link' there gone
            ∙ ground arith,
        recovered_url_at job_id s' after j new_url up' job_after kind' dead link' there gone u.id id
            ∙ ground arith,
      )
