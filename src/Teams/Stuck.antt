-- ===== src/Teams/Stuck.antt =====
-- scripts/scrape_country_teams.py: a job without a country at the head of the queue.
use sport_crawl.Prelude.{
  ℕ, ◌+◌, String, true, false, Option, none, some, List, [], ◌∷◌, ◌≡◌, refl, sym, ap, ◌∙◌, arith,
  All, length, inl, inr, Bool-cases,
}
use mathlib.Core.Path.{subst}
use sport_crawl.Queue.Table.{ScrapeQueue, Table, ok, Session, find, save}
use sport_crawl.Queue.Repository.{claimed, requeued, mark_failed}
use sport_crawl.Queue.UrlTable
use sport_crawl.Queue.PlayerInfo.{Database}
use sport_crawl.Crawl.Loops.{going_on, Result}
use sport_crawl.Teams.Claim.{claim_next_filtered}
use sport_crawl.Teams.Loop.{
  succeeded, with_queue, or_raised, after_no_country, with_country, Round, backend_failed, mark_url,
  no_country, claimed_team, claim_rounds, run_claim_loop,
}
use sport_crawl.Queue.Head.{waits, IsHead, save-IsHead, others, others-save, mark_failed-claimed}
use sport_crawl.Teams.Head.{claim_next_filtered-IsHead}

-- A round whose sessions reach the database, and in which nobody else holds the job.
abbrev pub IsClear : ℕ → Round → Type 0
IsClear i r =
    (r.claim.reachable ≡ true) × (r.claim.locked i ≡ false) × (r.meets.failure.reachable ≡ true)

-- The row after a round: its failure is recorded, and it waits again.
abbrev retried : Session → ScrapeQueue → ScrapeQueue
retried s q = requeued (no_country (claimed s q)) (claimed s q)

backend_failed-queue :
    (url_id : Option ℕ) (error : String) (s : Session) (db : Database)
    → (backend_failed url_id error s db).queue ≡ db.queue
unfolding UrlTable.mark_failed
backend_failed-queue none error s db = refl
backend_failed-queue (some i) error s db = elim (Bool-cases s.reachable) [
  | inl up ↦ rw up refl
  | inr down ↦ rw down refl
]

-- What a round leaves of the database.
abbrev after_round : Round → ScrapeQueue → Database → Database
after_round r q db =
    let job = claimed r.claim q in
    mark_url job r.meets (no_country job) (record db { queue = save (retried r.claim q) db.queue })

after_round-queue :
    (r : Round) (q : ScrapeQueue) (db : Database)
    → (after_round r q db).queue ≡ save (retried r.claim q) db.queue
after_round-queue r q db =
    let job = claimed r.claim q in
    backend_failed-queue job.fk_url_registry_id (no_country job) r.meets.backend_failure
      (record db { queue = save (retried r.claim q) db.queue })

no_country_round :
    (job : ScrapeQueue) (r : Round) (processed : ℕ) (held : Database) (queue : Table)
    (next : ℕ → Database → Result)
    → mark_failed job.id (no_country job) r.meets.failure held.queue ≡ (ok tt, queue)
    → with_country none job r processed held next
      ≡ next processed (mark_url job r.meets (no_country job) (record held { queue = queue }))
no_country_round job r processed held queue next marked =
    ap
      (λ o.
        after_no_country (or_raised job r.meets (with_queue o held) (no_country job) succeeded held)
          processed next)
      marked

round-eq :
    (r : Round) (q : ScrapeQueue) (db : Database) (processed : ℕ) (next : ℕ → Database → Result)
    → IsHead "team_list" q db.queue
    → q.fk_country ≡ none
    → IsClear q.id r
    → claimed_team (claim_next_filtered none r.claim db.queue) r processed db next
      ≡ next processed (after_round r q db)
round-eq r q db processed next h c (up, free, marks) =
    let job = claimed r.claim q in
    let held = record db { queue = save job db.queue } in
    ap (λ c. claimed_team c r processed db next)
      (claim_next_filtered-IsHead r.claim q db.queue h up free)
    ∙ ap (λ c. with_country c job r processed held next) c
    ∙ no_country_round job r processed held (save (retried r.claim q) db.queue) next
        (mark_failed-claimed (no_country job) r.claim r.meets.failure q db.queue h.found marks)

-- How the worker stands after n rounds with the job q at the head.
pub record IsStuck (q : ScrapeQueue) (processed n : ℕ) (before : Table) (r : Result) : Type 0 where
  pub row : ScrapeQueue
  pub found : find q.id r.database.queue ≡ some row
  pub waiting : waits "team_list" row ≡ true
  pub retries : row.retry_count ≡ q.retry_count + n
  pub end : r.end ≡ going_on
  pub counted : r.processed ≡ processed
  pub kept : others q.id r.database.queue ≡ others q.id before

claim_rounds-IsStuck :
    (rounds : List Round) (processed : ℕ) (db : Database) (q : ScrapeQueue)
    → IsHead "team_list" q db.queue
    → q.fk_country ≡ none
    → All (IsClear q.id) rounds
    → IsStuck q processed (length rounds) db.queue (claim_rounds none rounds processed db)
unfolding claim_rounds
claim_rounds-IsStuck [] processed db q h c clear = record {
  row = q;
  found = h.found;
  waiting = h.waiting;
  retries = omega arith;
  end = refl;
  counted = refl;
  kept = refl;
}
claim_rounds-IsStuck (r ∷ rest) processed db q h c clear =
    let after = after_round r q db in
    let queue = after_round-queue r q db in
    let w = h.waiting in
    let head : IsHead "team_list" (retried r.claim q) after.queue =
      subst (λ t. IsHead "team_list" (retried r.claim q) t) (sym queue)
        (save-IsHead "team_list" (retried r.claim q) q db.queue h refl (ground arith)) in
    let later = claim_rounds-IsStuck rest processed after (retried r.claim q) head c clear.1 in
    subst (λ x. IsStuck q processed (length (r ∷ rest)) db.queue x)
      (sym (round-eq r q db processed (λ n db'. claim_rounds none rest n db') h c clear.0))
      (record {
        row = later.row;
        found = later.found;
        waiting = later.waiting;
        retries = let e = later.retries in omega (arith, e);
        end = later.end;
        counted = later.counted;
        kept =
            later.kept
            ∙ (ap (λ t. others q.id t) queue ∙ others-save (retried r.claim q) q.id db.queue refl);
      })

-- On a queue with unique ids, once a team_list job without a country is the waiting job with the
-- smallest id, a worker without a country filter never gets past it: after any number of rounds in
-- which its sessions reach the database and nobody else holds the job, the loop still runs, has
-- counted no job, and the job waits again with one more retry for every round, the other jobs as they
-- were.
pub run_claim_loop-IsStuck :
    (rounds : List Round) (processed : ℕ) (db : Database) (q : ScrapeQueue)
    → IsHead "team_list" q db.queue
    → q.fk_country ≡ none
    → All (IsClear q.id) rounds
    → IsStuck q processed (length rounds) db.queue (run_claim_loop true none rounds processed db)
unfolding run_claim_loop
run_claim_loop-IsStuck rounds processed db q h c clear =
    claim_rounds-IsStuck rounds processed db q h c clear
