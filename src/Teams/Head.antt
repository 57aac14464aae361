-- ===== src/Teams/Head.antt =====
-- infrastructure/persistence/repositories/team_list_queue.py: the claim of the job at the head.
use sport_crawl.Prelude.{true, false, none, some, ◌≡◌, refl, arith}
use sport_crawl.Queue.Table.{ScrapeQueue, Table, ok, Session, save}
use sport_crawl.Queue.Repository.{claimed}
use sport_crawl.Queue.Head.{IsHead, first_row-IsHead}
use sport_crawl.Teams.Claim.{is_eligible, claim_next_filtered}

pub claim_next_filtered-IsHead :
    (s : Session) (q : ScrapeQueue) (t : Table)
    → IsHead "team_list" q t
    → s.reachable ≡ true
    → s.locked q.id ≡ false
    → claim_next_filtered none s t ≡ (ok (some (claimed s q)), save (claimed s q) t)
unfolding claim_next_filtered
claim_next_filtered-IsHead s q t h up free =
    let w = h.waiting in
    rw up (
      rw
        (first_row-IsHead "team_list" (is_eligible none s) q t h (λ r e. ground arith)
          (ground arith))
        refl)
