-- ===== src/Crawl/Loops.antt =====
-- scripts/scrape_player_info.py, class PlayerInfoWorker: the claim loops for one browser session. A
-- cancellation is met in a wait or in an attempt.
use sport_crawl.Prelude.{ℕ, ◌+◌, Bool, false, Option, none, some, List, [], ◌∷◌, if◌then◌else◌, not}
use sport_crawl.Queue.Table.{ScrapeQueue, Table, Outcome, ok, err, Session}
use sport_crawl.Queue.Repository.{claim_by_id}
use sport_crawl.Queue.PlayerInfo.{Database, claim_next, release_to_pending}
use sport_crawl.Crawl.Job.{
  JobEnd, succeeded, browser_restart, cooldown, skipped, fatal, interrupted, Meets, max_attempts,
  run_attempts, run_buffered_attempts,
}

-- How a claim loop ends: it returns the worker's count, or -1 for a new browser; it raises
-- CooldownRequired, another exception, or a cancellation; or it goes on.
pub data LoopEnd : Type 0 where
  exhausted restart cooldown_required raises cancelled going_on : LoopEnd

-- The end, self._processed and the database.
pub record Result : Type 0 where
  pub end : LoopEnd
  pub processed : ℕ
  pub database : Database

abbrev pub stop : LoopEnd → ℕ → Database → Result
stop end processed db = record { end = end; processed = processed; database = db }

-- What follows the handling of a job; `next` goes on with the loop.
abbrev pub after_job : JobEnd × Database → ℕ → (ℕ → Database → Result) → Result
after_job (succeeded, db) processed next = next (processed + 1) db
after_job (browser_restart, db) processed next = stop restart processed db
after_job (cooldown, db) processed next = stop cooldown_required processed db
after_job (skipped, db) processed next = next processed db
after_job (fatal, db) processed next = stop raises processed db
after_job (interrupted, db) processed next = stop cancelled processed db

-- One round of run_claim_loop: the session of the claim, whether step 2 is done or absent, whether
-- the worker is cancelled in the wait for it, and what the job meets.
pub record Round : Type 0 where
  pub claim : Session
  pub step2_done : Bool
  pub wait_cancelled : Bool
  pub meets : Meets

abbrev pub no_job : Round → ℕ → Database → (ℕ → Database → Result) → Result
no_job r processed db next =
    if r.step2_done
    then stop exhausted processed db
    else if r.wait_cancelled
    then stop cancelled processed db
    else next processed db

abbrev pub claimed_round :
    Outcome (Option ScrapeQueue) × Table
    → ℕ
    → Round
    → ℕ
    → Database
    → (ℕ → Database → Result)
    → Result
claimed_round (err e, queue) ceiling r processed db next = stop raises processed db
claimed_round (ok none, queue) ceiling r processed db next = no_job r processed db next
claimed_round (ok (some job), queue) ceiling r processed db next =
    after_job (run_attempts job ceiling r.meets max_attempts 0 (record db { queue = queue }))
      processed next

unfoldable pub run_claim_loop : ℕ → List Round → ℕ → Database → Result
run_claim_loop ceiling [] processed db = stop going_on processed db
run_claim_loop ceiling (r ∷ rest) processed db =
    claimed_round (claim_next r.claim db.queue) ceiling r processed db
      (λ n db'. run_claim_loop ceiling rest n db')

-- What buffer.get returns, or its cancellation; the buffer may be closed and empty already.
pub data Ref : Type 0 where
  spent sentinel get_cancelled : Ref
  candidate : ℕ → Ref

-- One round of _run_buffered_loop: the candidate, the session of the claim, whether there is a gate
-- and it is open after the claim, the session that releases the job, and what the job meets.
pub record BufferedRound : Type 0 where
  pub ref : Ref
  pub claim : Session
  pub has_gate : Bool
  pub is_open : Bool
  pub release : Session
  pub meets : Meets

abbrev pub is_closed : BufferedRound → Bool
is_closed r = if r.has_gate then not r.is_open else false

abbrev pub released : Outcome Bool × Table → ℕ → Database → (ℕ → Database → Result) → Result
released (err e, queue) processed db next = stop raises processed db
released (ok _, queue) processed db next = next processed (record db { queue = queue })

abbrev pub buffered_job :
    ScrapeQueue → ℕ → BufferedRound → ℕ → Database → (ℕ → Database → Result) → Result
buffered_job job ceiling r processed db next =
    if is_closed r
    then released (release_to_pending job.id r.release db.queue) processed db next
    else after_job (run_buffered_attempts job ceiling r.meets r.has_gate max_attempts 0 db).0
        processed next

abbrev pub claimed_buffered :
    Outcome (Option ScrapeQueue) × Table
    → ℕ
    → BufferedRound
    → ℕ
    → Database
    → (ℕ → Database → Result)
    → Result
claimed_buffered (err e, queue) ceiling r processed db next = stop raises processed db
claimed_buffered (ok none, queue) ceiling r processed db next = next processed db
claimed_buffered (ok (some job), queue) ceiling r processed db next =
    buffered_job job ceiling r processed (record db { queue = queue }) next

abbrev pub with_ref : Ref → ℕ → BufferedRound → ℕ → Database → (ℕ → Database → Result) → Result
with_ref spent ceiling r processed db next = stop exhausted processed db
with_ref sentinel ceiling r processed db next = stop exhausted processed db
with_ref get_cancelled ceiling r processed db next = stop cancelled processed db
with_ref (candidate i) ceiling r processed db next =
    claimed_buffered (claim_by_id "player_info" i r.claim db.queue) ceiling r processed db next

unfoldable pub run_buffered_loop : ℕ → List BufferedRound → ℕ → Database → Result
run_buffered_loop ceiling [] processed db = stop going_on processed db
run_buffered_loop ceiling (r ∷ rest) processed db =
    with_ref r.ref ceiling r processed db (λ n db'. run_buffered_loop ceiling rest n db')
