-- ===== src/Queue/Operations.antt =====
-- Every operation of the queue's repositories, as data, and the invariants that all of them keep.
use sport_crawl.Prelude.{
  ℕ, String, Bool, Option, none, some, ◌≡◌, refl, arith, All, is_some, Bool-cases, inl, inr,
}
use sport_crawl.Queue.Table.{
  in_progress, is_status, ScrapeQueue, Table, Outcome, ok, err, Session, repo_error_context, find,
  update_where,
}
use sport_crawl.Queue.Table.Writes.{All-save, All-update_where}
use sport_crawl.Queue.Repository
use sport_crawl.Queue.JobRepository
use sport_crawl.Queue.PlayerInfo
use sport_crawl.Queue.PlayerInfo.{is_terminal}

-- The methods of ScrapeQueueRepository, ScrapeQueueJobRepository and PlayerInfoQueueRepository that
-- change the table. A method that takes a row object gets the object that the session loads by id.
pub data Operation : Type 0 where
  claim_next : String → Operation
  claim_by_id : String → ℕ → Operation
  mark_done : ℕ → Operation
  mark_failed : ℕ → String → Operation
  recover_all_stale : String → Operation
  recover_failed : String → Operation
  recover_stale : String → ℕ → Operation
  job_recover_stale : String → ℕ → Operation
  job_mark_in_progress : ℕ → Operation
  job_mark_done : ℕ → Operation
  job_mark_failed : ℕ → String → ℕ → Operation
  info_mark_failed : ℕ → String → ℕ → Operation
  info_release_to_pending : ℕ → Operation

abbrev pub on_row : Option ScrapeQueue → Table → (ScrapeQueue → Table) → Table
on_row none table act = table
on_row (some row) table act = act row

unfoldable pub perform : Operation → Session → Table → Table
perform (claim_next job_type) s t = (Repository.claim_next job_type s t).1
perform (claim_by_id job_type i) s t = (Repository.claim_by_id job_type i s t).1
perform (mark_done i) s t = (Repository.mark_done i s t).1
perform (mark_failed i error) s t = (Repository.mark_failed i error s t).1
perform (recover_all_stale job_type) s t = (Repository.recover_all_stale job_type s t).1
perform (recover_failed job_type) s t = (Repository.recover_failed job_type s t).1
perform (recover_stale job_type minutes) s t = (Repository.recover_stale job_type minutes s t).1
perform (job_recover_stale domain minutes) s t = (JobRepository.recover_stale domain minutes s t).1
perform (job_mark_in_progress i) s t =
    on_row (find i t) t (λ row. (JobRepository.mark_in_progress row s t).1)
perform (job_mark_done i) s t = on_row (find i t) t (λ row. (JobRepository.mark_done row s t).1)
perform (job_mark_failed i error ceiling) s t =
    on_row (find i t) t (λ row. (JobRepository.mark_failed row error ceiling s t).1)
perform (info_mark_failed i error ceiling) s t = (PlayerInfo.mark_failed i error ceiling s t).1
perform (info_release_to_pending i) s t = (PlayerInfo.release_to_pending i s t).1

-- A row carries a lock time exactly while it is IN_PROGRESS.
abbrev pub LockMatches : ScrapeQueue → Type 0
LockMatches r = is_status r.status in_progress ≡ is_some r.locked_at

abbrev pub IsLocked : Table → Type 0
IsLocked table = All LockMatches table

-- A method leaves the table as it was when its statements do not reach the database.
pub context-keeps {ℓ} :
    {A : Type ℓ} (K : Table → Type 0) (operation : String) (s : Session) (t : Table)
    (body : Outcome A × Table)
    → K t
    → K body.1
    → K (repo_error_context operation s t body).1
context-keeps K operation s t body before after = elim (Bool-cases s.reachable) [
  | inl up ↦ rw up after
  | inr down ↦ rw down before
]

module _ (s : Session) (t : Table) (h : IsLocked t) where
  claim_row-IsLocked : (o : Option ScrapeQueue) → IsLocked (Repository.claim_row s t o).1
  claim_row-IsLocked none = h
  claim_row-IsLocked (some r) = All-save LockMatches (Repository.claimed s r) t refl h

  with_row-IsLocked :
      (o : Outcome ScrapeQueue) (change : ScrapeQueue → ScrapeQueue)
      → ((r : ScrapeQueue) → LockMatches (change r))
      → IsLocked (Repository.with_row o t change).1
  with_row-IsLocked (err e) change keep = h
  with_row-IsLocked (ok r) change keep = All-save LockMatches (change r) t (keep r) h

  on_row-IsLocked :
      (o : Option ScrapeQueue) (act : ScrapeQueue → Table)
      → ((r : ScrapeQueue) → IsLocked (act r))
      → IsLocked (on_row o t act)
  on_row-IsLocked none act keep = h
  on_row-IsLocked (some r) act keep = keep r

  released-IsLocked :
      (test : ScrapeQueue → Bool) → IsLocked (update_where test Repository.released t)
  released-IsLocked test = All-update_where LockMatches test Repository.released t (λ r e k. refl) h

-- The revived rows are the FAILED ones, which have no lock time.
revived-IsLocked :
    (job_type : String) (t : Table)
    → IsLocked t
    → IsLocked (update_where (Repository.is_dead job_type) Repository.revived t)
revived-IsLocked job_type t h =
    All-update_where LockMatches (Repository.is_dead job_type) Repository.revived t
      (λ r e k. ground arith) h

failed_row-LockMatches :
    (error : String) (ceiling : ℕ) (s : Session) (r : ScrapeQueue)
    → LockMatches (JobRepository.failed_row error ceiling s r)
failed_row-LockMatches error ceiling s r = ground arith

retried_row-LockMatches :
    (error : String) (ceiling : ℕ) (s : Session) (r : ScrapeQueue)
    → LockMatches (PlayerInfo.retried_row error ceiling s r)
retried_row-LockMatches error ceiling s r = ground arith

-- Every operation, succeeding or failing, keeps a lock time on exactly the rows IN_PROGRESS.
pub perform-IsLocked :
    (op : Operation) (s : Session) (t : Table) → IsLocked t → IsLocked (perform op s t)
unfolding perform Repository.claim_next Repository.claim_by_id Repository.mark_done
    Repository.mark_failed Repository.recover_all_stale Repository.recover_failed
    Repository.recover_stale JobRepository.recover_stale JobRepository.mark_in_progress
    JobRepository.mark_done JobRepository.mark_failed PlayerInfo.mark_failed
    PlayerInfo.release_to_pending
perform-IsLocked (claim_next job_type) s t h =
    context-keeps IsLocked "claim_next" s t _ h (claim_row-IsLocked s t h _)
perform-IsLocked (claim_by_id job_type i) s t h =
    context-keeps IsLocked "claim_by_id" s t _ h (claim_row-IsLocked s t h _)
perform-IsLocked (mark_done i) s t h =
    context-keeps IsLocked "mark_done" s t _ h
      (with_row-IsLocked s t h _ (Repository.completed s) (λ r. refl))
perform-IsLocked (mark_failed i error) s t h =
    context-keeps IsLocked "mark_failed" s t _ h
      (with_row-IsLocked s t h _ (Repository.requeued error) (λ r. refl))
perform-IsLocked (recover_all_stale job_type) s t h =
    context-keeps IsLocked "recover_all_stale" s t _ h (released-IsLocked s t h _)
perform-IsLocked (recover_failed job_type) s t h =
    context-keeps IsLocked "recover_failed" s t _ h (revived-IsLocked job_type t h)
perform-IsLocked (recover_stale job_type minutes) s t h =
    context-keeps IsLocked "recover_stale" s t _ h (released-IsLocked s t h _)
perform-IsLocked (job_recover_stale domain minutes) s t h =
    context-keeps IsLocked "recover_stale" s t _ h (released-IsLocked s t h _)
perform-IsLocked (job_mark_in_progress i) s t h = on_row-IsLocked s t h (find i t) _ λ r.
    context-keeps IsLocked "mark_in_progress" s t _ h
      (All-save LockMatches (Repository.claimed s r) t refl h)
perform-IsLocked (job_mark_done i) s t h = on_row-IsLocked s t h (find i t) _ λ r.
    context-keeps IsLocked "mark_done" s t _ h
      (All-save LockMatches (Repository.completed s r) t refl h)
perform-IsLocked (job_mark_failed i error ceiling) s t h = on_row-IsLocked s t h (find i t) _ λ r.
    context-keeps IsLocked "mark_failed" s t _ h (
      All-save LockMatches (JobRepository.failed_row error ceiling s r) t
        (failed_row-LockMatches error ceiling s r) h)
perform-IsLocked (info_mark_failed i error ceiling) s t h =
    context-keeps IsLocked "mark_failed" s t _ h (
      with_row-IsLocked s t h _ (PlayerInfo.retried_row error ceiling s)
        (retried_row-LockMatches error ceiling s))
perform-IsLocked (info_release_to_pending i) s t h =
    context-keeps IsLocked "release_to_pending" s t _ h (released-IsLocked s t h _)
