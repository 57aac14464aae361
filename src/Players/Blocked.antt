-- ===== src/Players/Blocked.antt =====
-- scripts/scrape_players.py: a job at the head of the queue whose attempts fail.
use mathlib.Core.Path.{subst}
use sport_crawl.Prelude.{
  ℕ, ◌+◌, String, true, false, Option, none, some, List, [], ◌∷◌, ◌≡◌, refl, sym, ap, ◌∙◌, arith,
  length, inl, inr, Bool-cases,
}
use sport_crawl.Queue.Table.{ScrapeQueue, Table, Session, find, save}
use sport_crawl.Queue.Repository.{claimed, requeued, mark_failed}
use sport_crawl.Queue.Head.{
  waits, IsHead, claim_next-IsHead, save-IsHead, others, others-save, mark_failed-claimed,
}
use sport_crawl.Queue.UrlTable
use sport_crawl.Queue.PlayerInfo.{Database}
use sport_crawl.Crawl.Loops.{cooldown_required, stop}
use sport_crawl.Players.Loop.{
  claim_next, other, try_attempt, country_failed, or_logged, mark_job, cooldown, run_attempts,
  max_attempts, Round, after_job, claimed_list, run_claim_loop, run_sessions,
}

-- A round whose sessions reach the database, in which nobody else holds the job, and all of whose
-- attempts fail in the scrape, without a BrowserException.
pub record IsFailing (i : ℕ) (r : Round) : Type 0 where
  pub claims : r.claim.reachable ≡ true
  pub free : r.claim.locked i ≡ false
  pub marks : r.meets.failure.reachable ≡ true
  pub errors : ℕ → String
  pub first : (r.meets.attempts 0).scrape ≡ some (other (errors 0))
  pub second : (r.meets.attempts 1).scrape ≡ some (other (errors 1))
  pub third : (r.meets.attempts 2).scrape ≡ some (other (errors 2))

-- Sessions whose first round is such a round.
abbrev pub IsFailingSessions : ℕ → List (List Round) → Type 0
IsFailingSessions i [] = Unit
IsFailingSessions i ([] ∷ sessions) = ⊥
IsFailingSessions i ((r ∷ rounds) ∷ sessions) = IsFailing i r × IsFailingSessions i sessions

run_attempts-cooldown :
    (job : ScrapeQueue) (r : Round) (i : ℕ) (h : IsFailing i r) (db : Database)
    → run_attempts job r.meets max_attempts 0 db ≡ (cooldown, mark_job job r.meets (h.errors 2) db)
unfolding run_attempts try_attempt
run_attempts-cooldown job r i h db =
    let a = h.first in let b = h.second in let c = h.third in rw a (rw b (rw c refl))

country_failed-queue :
    (url_id : Option ℕ) (error : String) (s : Session) (db : Database)
    → (country_failed url_id error s db).queue ≡ db.queue
unfolding UrlTable.mark_failed
country_failed-queue none error s db = refl
country_failed-queue (some i) error s db = elim (Bool-cases s.reachable) [
  | inl up ↦ rw up refl
  | inr down ↦ rw down refl
]

-- The row after a session: its failure is recorded, and it waits again.
abbrev retried : Session → String → ScrapeQueue → ScrapeQueue
retried s error q = requeued error (claimed s q)

module _ (q : ScrapeQueue) (r : Round) (h : IsFailing q.id r) (db : Database)
    (head : IsHead "player_list" q db.queue) where
  abbrev after_session : Database
  after_session =
      mark_job (claimed r.claim q) r.meets (h.errors 2)
        (record db { queue = save (claimed r.claim q) db.queue })

  after_session-queue : after_session.queue ≡ save (retried r.claim (h.errors 2) q) db.queue
  after_session-queue =
      let job = claimed r.claim q in
      let held = record db { queue = save job db.queue } in
      country_failed-queue job.fk_url_registry_id (h.errors 2) r.meets.backend_failure
        (or_logged (mark_failed job.id (h.errors 2) r.meets.failure held.queue) held)
      ∙ ap (λ o. (or_logged o held).queue)
          (mark_failed-claimed (h.errors 2) r.claim r.meets.failure q db.queue head.found h.marks)

  session-eq :
      (rounds : List Round) (processed : ℕ)
      → run_claim_loop (r ∷ rounds) processed db ≡ stop cooldown_required processed after_session
  unfolding run_claim_loop claim_next
  session-eq rounds processed =
      let next = λ (n : ℕ) (db' : Database). run_claim_loop rounds n db' in
      let job = claimed r.claim q in
      let held = record db { queue = save job db.queue } in
      ap (λ c. claimed_list c r processed db next)
        (claim_next-IsHead "player_list" r.claim q db.queue head h.claims h.free)
      ∙ ap (λ e. after_job e processed next) (run_attempts-cooldown job r q.id h held)

-- How a worker stands after n sessions with the job q at the head.
pub record IsBlocked (q : ScrapeQueue) (processed n : ℕ) (before : Table) (r : ℕ × Database)
    : Type 0 where
  pub row : ScrapeQueue
  pub found : find q.id r.1.queue ≡ some row
  pub waiting : waits "player_list" row ≡ true
  pub retries : row.retry_count ≡ q.retry_count + n
  pub counted : r.0 ≡ processed
  pub kept : others q.id r.1.queue ≡ others q.id before

-- On a queue with unique ids a player_list job that waits with the smallest id blocks the queue: after
-- any number of sessions in which it is claimed first, its three scrapes fail without a browser error,
-- and the session that records the failure reaches the database, no job has been counted, every other
-- job is as it was, and it waits again with one more retry for every session.
pub run_sessions-IsBlocked :
    (sessions : List (List Round)) (processed : ℕ) (db : Database) (q : ScrapeQueue)
    → IsHead "player_list" q db.queue
    → IsFailingSessions q.id sessions
    → IsBlocked q processed (length sessions) db.queue (run_sessions sessions processed db)
unfolding run_sessions
run_sessions-IsBlocked [] processed db q head h = record {
  row = q;
  found = head.found;
  waiting = head.waiting;
  retries = omega arith;
  counted = refl;
  kept = refl;
}
run_sessions-IsBlocked ([] ∷ sessions) processed db q head h = absurd h
run_sessions-IsBlocked ((r ∷ rounds) ∷ sessions) processed db q head h =
    let row = retried r.claim (h.0.errors 2) q in
    let after = after_session q r h.0 db head in
    let queue = after_session-queue q r h.0 db head in
    let w = head.waiting in
    let head' : IsHead "player_list" row after.queue =
      subst (λ t. IsHead "player_list" row t) (sym queue)
        (save-IsHead "player_list" row q db.queue head refl (ground arith)) in
    let later = run_sessions-IsBlocked sessions processed after row head' h.1 in
    rw (session-eq q r h.0 db head rounds processed) (record {
      row = later.row;
      found = later.found;
      waiting = later.waiting;
      retries = let e = later.retries in omega (arith, e);
      counted = later.counted;
      kept = later.kept ∙ (ap (λ t. others q.id t) queue ∙ others-save row q.id db.queue refl);
    })
