-- ===== src/Queue/Refinement.antt =====
-- The operations of the queue's repositories as steps in the life of every job.
use sport_crawl.Prelude.{ℕ, refl, arith, ◌==◌, ==_iff, select, head?, ◌&&◌}
use sport_crawl.Queue.Table.{
  pending, in_progress, failed, ScrapeQueue, Table, ok, Session, first_row,
}
use sport_crawl.Queue.Table.Order.{first_row-some, head?-select}
use sport_crawl.Queue.Table.Writes.{is_status-eq}
use sport_crawl.Queue.Table.Totals.{IsUnique, find-of_Mem}
use sport_crawl.Queue.Repository
use sport_crawl.Queue.JobRepository
use sport_crawl.Queue.PlayerInfo
use sport_crawl.Queue.PlayerInfo.{is_terminal}
use sport_crawl.Queue.Operations.{
  Operation, claim_next, claim_by_id, mark_done, mark_failed, recover_all_stale, recover_failed,
  recover_stale, job_recover_stale, job_mark_in_progress, job_mark_done, job_mark_failed,
  info_mark_failed, info_release_to_pending, perform, context-keeps,
}
use sport_crawl.Queue.Lifecycle.{
  starts, finishes, gives_back, revives, status_of, Step, IsGuarded, IsStep, IsStep-refl,
  update_where-IsStep,
}
use sport_crawl.Queue.Moves.{
  move_from, claim_row-IsStep, with_row-on_row, marked-IsStep, job_marked-IsStep, released-IsStep,
  failed_row-fails, retried_row-fails,
}

-- Of a queue with unique ids each operation is a step of the specification for every job, whatever
-- the session meets, when the marked job, if there is one, is in the status that the caller keeps: a
-- job moves along PENDING, IN_PROGRESS, DONE or FAILED, or back to PENDING, only as its operation
-- may move it.
pub perform-Step :
    (op : Operation) (s : Session) (t : Table)
    → IsUnique t
    → IsGuarded op t
    → (i : ℕ) → Step op i (status_of i t) (status_of i (perform op s t))
unfolding perform Repository.claim_next Repository.claim_by_id Repository.mark_done
    Repository.mark_failed Repository.recover_all_stale Repository.recover_failed
    Repository.recover_stale JobRepository.recover_stale JobRepository.mark_in_progress
    JobRepository.mark_done JobRepository.mark_failed PlayerInfo.mark_failed
    PlayerInfo.release_to_pending
perform-Step (claim_next job_type) s t u g =
    let op = claim_next job_type in
    context-keeps (IsStep op t) "claim_next" s t _ (IsStep-refl op t) (
      claim_row-IsStep op s t (first_row (Repository.is_claimable job_type s) t) (λ q e.
        let first = first_row-some (Repository.is_claimable job_type s) t q e in
        (find-of_Mem q t u first.1, (let c = first.0 in ground arith), tt)))
perform-Step (claim_by_id job_type j) s t u g =
    let op = claim_by_id job_type j in
    let test = λ (r : ScrapeQueue). r.id == j && Repository.is_claimable job_type s r in
    context-keeps (IsStep op t) "claim_by_id" s t _ (IsStep-refl op t) (
      claim_row-IsStep op s t (head? (select test t)) (λ q e.
        let h = head?-select test t q e in
        let met = h.1 in (find-of_Mem q t u h.0, ground arith, (==_iff q.id j).0 (ground arith))))
perform-Step (mark_done j) s t u g =
    let op = mark_done j in
    context-keeps (IsStep op t) "mark_done" s t _ (IsStep-refl op t) (
      rw (with_row-on_row op s t j "mark_done" (Repository.completed s)) (
        marked-IsStep op s t j in_progress (Repository.completed s) g (λ q. refl)
          (λ q. (finishes, refl))))
perform-Step (mark_failed j error) s t u g =
    let op = mark_failed j error in
    context-keeps (IsStep op t) "mark_failed" s t _ (IsStep-refl op t) (
      rw (with_row-on_row op s t j "mark_failed" (Repository.requeued error)) (
        marked-IsStep op s t j in_progress (Repository.requeued error) g (λ q. refl)
          (λ q. (gives_back, refl))))
perform-Step (recover_all_stale job_type) s t u g =
    let op = recover_all_stale job_type in
    context-keeps (IsStep op t) "recover_all_stale" s t _ (IsStep-refl op t)
      (released-IsStep op s t (Repository.is_running job_type) (λ r e. (ground arith, tt)))
perform-Step (recover_failed job_type) s t u g =
    let op = recover_failed job_type in
    context-keeps (IsStep op t) "recover_failed" s t _ (IsStep-refl op t) (
      update_where-IsStep op t (Repository.is_dead job_type) Repository.revived (λ r. refl)
        (λ r e.
          move_from op r.id r.status failed pending (is_status-eq r.status failed (ground arith))
            revives tt))
perform-Step (recover_stale job_type minutes) s t u g =
    let op = recover_stale job_type minutes in
    context-keeps (IsStep op t) "recover_stale" s t _ (IsStep-refl op t)
      (released-IsStep op s t (Repository.is_stale job_type minutes s) (λ r e. (ground arith, tt)))
perform-Step (job_recover_stale domain minutes) s t u g =
    let op = job_recover_stale domain minutes in
    context-keeps (IsStep op t) "recover_stale" s t _ (IsStep-refl op t) (
      released-IsStep op s t (JobRepository.is_stale_in domain minutes s)
        (λ r e. (ground arith, tt)))
perform-Step (info_release_to_pending j) s t u g =
    let op = info_release_to_pending j in
    context-keeps (IsStep op t) "release_to_pending" s t _ (IsStep-refl op t) (
      released-IsStep op s t (PlayerInfo.is_held j)
        (λ r e. (ground arith, (==_iff r.id j).0 (ground arith))))
perform-Step (job_mark_in_progress j) s t u g =
    job_marked-IsStep (job_mark_in_progress j) s t "mark_in_progress"
      (λ q. ok (Repository.claimed s q)) j pending (Repository.claimed s) g (λ q. refl)
      (λ q. (starts, refl))
perform-Step (job_mark_done j) s t u g =
    job_marked-IsStep (job_mark_done j) s t "mark_done" (λ q. ok (Repository.completed s q)) j
      in_progress (Repository.completed s) g (λ q. refl) (λ q. (finishes, refl))
perform-Step (job_mark_failed j error ceiling) s t u g =
    let change = JobRepository.failed_row error ceiling s in
    job_marked-IsStep (job_mark_failed j error ceiling) s t "mark_failed"
      (λ q. ok (change q).status) j in_progress change g (λ q. ground arith)
      (failed_row-fails j error ceiling s)
perform-Step (info_mark_failed j error ceiling) s t u g =
    let op = info_mark_failed j error ceiling in
    let change = PlayerInfo.retried_row error ceiling s in
    context-keeps (IsStep op t) "mark_failed" s t _ (IsStep-refl op t) (
      rw (with_row-on_row op s t j "mark_failed" change) (
        marked-IsStep op s t j in_progress change g (λ q. ground arith)
          (retried_row-fails j error ceiling s)))
