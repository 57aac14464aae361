-- ===== src/Crawl/Tidy.antt =====
-- scripts/scrape_player_info.py: what the claim loops leave in the queue, however they end.
use mathlib.Core.Path.{subst}
use sport_crawl.Prelude.{
  ℕ, ◌+◌, Option, none, some, List, [], ◌∷◌, ◌≡◌, ◌⊎◌, refl, sym, inl, inr, Bool-cases, arith,
}
use sport_crawl.Queue.Table.{
  ScrapeStatus, pending, in_progress, done, failed, ScrapeQueue, Table, Outcome, ok, err, find,
  update_where,
}
use sport_crawl.Queue.Table.Totals.{IsUnique}
use sport_crawl.Queue.Repository.{claim_by_id}
use sport_crawl.Queue.Repository
use sport_crawl.Queue.PlayerInfo.{Database, is_held, claim_next, release_to_pending}
use sport_crawl.Crawl.Job.{
  JobEnd, succeeded, browser_restart, cooldown, skipped, fatal, interrupted, max_attempts,
  run_attempts, run_buffered_attempts,
}
use sport_crawl.Crawl.Loops.{
  LoopEnd, exhausted, restart, cooldown_required, raises, cancelled, going_on, Result, stop,
  after_job, Round, claimed_round, run_claim_loop, Ref, spent, sentinel, get_cancelled, candidate,
  BufferedRound, is_closed, claimed_buffered, with_ref, run_buffered_loop,
}
use sport_crawl.Crawl.Handled.{IsDone, IsFailed, IsHandled, run_attempts-IsHandled}
use sport_crawl.Crawl.Copies.{run_buffered_attempts-eq}
use sport_crawl.Crawl.Running.{
  count_status, unit, IsClaim, claim_next-IsClaim, claim_by_id-IsClaim, IsLetGo, save-IsLetGo,
  release_to_pending-IsLetGo,
}

-- The jobs that are being worked on, after a loop that found n of them: n again when it returned,
-- asked for a cooldown or goes on; at most one more when it raised or was cancelled.
abbrev pub IsEnd : LoopEnd → ℕ → ℕ → Type 0
IsEnd exhausted n m = m ≡ n
IsEnd restart n m = m ≡ n
IsEnd cooldown_required n m = m ≡ n
IsEnd raises n m = (m ≡ n) ⊎ (m ≡ n + 1)
IsEnd cancelled n m = (m ≡ n) ⊎ (m ≡ n + 1)
IsEnd going_on n m = m ≡ n

module _ (n f p : ℕ) where
  -- Between two jobs: n rows are IN_PROGRESS, and as many rows are DONE beyond f as jobs were counted
  -- beyond p.
  abbrev pub IsBetween : ℕ → Database → Type 0
  IsBetween processed db =
      IsUnique db.queue
      × (count_status in_progress db.queue ≡ n)
      × (count_status done db.queue + p ≡ f + processed)

  -- With a job in hand.
  abbrev IsHolding : ℕ → Database → Type 0
  IsHolding processed db =
      IsUnique db.queue
      × (count_status in_progress db.queue ≡ n + 1)
      × (count_status done db.queue + p ≡ f + processed)

  abbrev pub IsTidy : Result → Type 0
  IsTidy r =
      IsEnd r.end n (count_status in_progress r.database.queue)
      × (count_status done r.database.queue + p ≡ f + r.processed)

  abbrev KeepsTidy : (ℕ → Database → Result) → Type 0
  KeepsTidy next = (m : ℕ) (db : Database) → IsBetween m db → IsTidy (next m db)

  module _ (q : ScrapeQueue) (processed : ℕ) (db : Database) (h : IsHolding processed db)
      (found : find q.id db.queue ≡ some q) (held : q.status ≡ in_progress) where
    let_go-IsBetween :
        (y : ScrapeStatus) (after : Database) (m : ℕ)
        → unit in_progress y ≡ 0
        → m ≡ processed + unit done y
        → IsLetGo y db.queue after.queue
        → IsBetween m after
    let_go-IsBetween y after m idle counted (u, counts) =
        let a = counts in_progress in let b = counts done in (u, ground arith, ground arith)

    IsDone-IsBetween : (after : Database) → IsDone q db after → IsBetween (processed + 1) after
    IsDone-IsBetween after (row, same, written, is_done, free) =
        let_go-IsBetween done after (processed + 1) refl refl
          (save-IsLetGo q db.queue h.0 found held row done after.queue same is_done written)

    IsFailed-IsBetween :
        (ceiling : ℕ) (after : Database) → IsFailed q ceiling db after → IsBetween processed after
    IsFailed-IsBetween ceiling after (row, same, written, more, free, inl (dead, last)) =
        let_go-IsBetween failed after processed refl (ground arith)
          (save-IsLetGo q db.queue h.0 found held row failed after.queue same dead written)
    IsFailed-IsBetween ceiling after (row, same, written, more, free, inr (waits, left)) =
        let_go-IsBetween pending after processed refl (ground arith)
          (save-IsLetGo q db.queue h.0 found held row pending after.queue same waits written)

    after_job-IsTidy :
        (ceiling : ℕ) (e : JobEnd) (after : Database) (next : ℕ → Database → Result)
        → IsHandled q ceiling db (e, after)
        → KeepsTidy next
        → IsTidy (after_job (e, after) processed next)
    after_job-IsTidy ceiling succeeded after next finished keeps =
        keeps (processed + 1) after (IsDone-IsBetween after finished)
    after_job-IsTidy ceiling browser_restart after next fails keeps =
        let b = IsFailed-IsBetween ceiling after fails in (b.1, b.2)
    after_job-IsTidy ceiling cooldown after next fails keeps =
        let b = IsFailed-IsBetween ceiling after fails in (b.1, b.2)
    after_job-IsTidy ceiling skipped after next fails keeps =
        keeps processed after (IsFailed-IsBetween ceiling after fails)
    after_job-IsTidy ceiling fatal after next same keeps =
        subst (λ d. IsTidy (stop raises processed d)) (sym same) (inr h.1, h.2)
    after_job-IsTidy ceiling interrupted after next same keeps =
        subst (λ d. IsTidy (stop cancelled processed d)) (sym same) (inr h.1, h.2)

  IsClaim-IsHolding :
      (processed : ℕ) (db : Database) (r : ScrapeQueue) (t : Table)
      → IsBetween processed db
      → IsClaim db.queue (ok (some r), t)
      → IsHolding processed (record db { queue = t })
  IsClaim-IsHolding processed db r t h (found, kind, held, u, counts) =
      let a = counts in_progress in let b = counts done in (u, ground arith, ground arith)

  module _ (ceiling : ℕ) (processed : ℕ) (db : Database) (h : IsBetween processed db)
      (next : ℕ → Database → Result) (keeps : KeepsTidy next) where
    claimed_round-IsTidy :
        (r : Round) (o : Outcome (Option ScrapeQueue)) (t : Table)
        → IsClaim db.queue (o, t)
        → IsTidy (claimed_round (o, t) ceiling r processed db next)
    claimed_round-IsTidy r (err e) t claim = (inl h.1, h.2)
    claimed_round-IsTidy r (ok none) t claim = elim (Bool-cases r.step2_done) [
      | inl finished ↦ simp finished (h.1, h.2)
      | inr waits ↦ elim (Bool-cases r.wait_cancelled) [
        | inl stopped ↦ simp (waits, stopped) (inl h.1, h.2)
        | inr on ↦ simp (waits, on) (keeps processed db h)
      ]
    ]
    claimed_round-IsTidy r (ok (some job)) t claim =
        let held = record db { queue = t } in
        let result = run_attempts job ceiling r.meets max_attempts 0 held in
        after_job-IsTidy job processed held (IsClaim-IsHolding processed db job t h claim) claim.0
          claim.2 ceiling result.0 result.1 next
          (run_attempts-IsHandled job held claim.0 claim.1 ceiling r.meets 2 0) keeps

    claimed_buffered-IsTidy :
        (r : BufferedRound) (o : Outcome (Option ScrapeQueue)) (t : Table)
        → IsClaim db.queue (o, t)
        → IsTidy (claimed_buffered (o, t) ceiling r processed db next)
    unfolding release_to_pending
    claimed_buffered-IsTidy r (err e) t claim = (inl h.1, h.2)
    claimed_buffered-IsTidy r (ok none) t claim = keeps processed db h
    claimed_buffered-IsTidy r (ok (some job)) t claim =
        let held = record db { queue = t } in
        let holding = IsClaim-IsHolding processed db job t h claim in
        elim (Bool-cases (is_closed r)) [
          | inl closed ↦ simp closed (elim (Bool-cases r.release.reachable) [
            | inl up ↦
                let freed = record held {
                  queue = update_where (is_held job.id) Repository.released t;
                } in
                simp up (
                  keeps processed freed (
                    let_go-IsBetween job processed held holding claim.0 claim.2 pending freed
                      processed refl (ground arith)
                      (release_to_pending-IsLetGo job t claim.3 claim.0 claim.2 claim.1)))
            | inr down ↦ simp down (inr holding.1, holding.2)
          ])
          | inr opened ↦
              let result =
                run_buffered_attempts job ceiling r.meets r.has_gate max_attempts 0 held in
              simp opened (
                after_job-IsTidy job processed held holding claim.0 claim.2 ceiling result.0.0
                  result.0.1 next
                  (subst (λ x. IsHandled job ceiling held x)
                    (sym
                      (run_buffered_attempts-eq job ceiling r.meets r.has_gate max_attempts 0 held))
                    (run_attempts-IsHandled job held claim.0 claim.1 ceiling r.meets 2 0))
                  keeps)
        ]

    with_ref-IsTidy :
        (ref : Ref) (r : BufferedRound) → IsTidy (with_ref ref ceiling r processed db next)
    with_ref-IsTidy spent r = (h.1, h.2)
    with_ref-IsTidy sentinel r = (h.1, h.2)
    with_ref-IsTidy get_cancelled r = (inl h.1, h.2)
    with_ref-IsTidy (candidate i) r =
        let claim = claim_by_id "player_info" i r.claim db.queue in
        claimed_buffered-IsTidy r claim.0 claim.1 (claim_by_id-IsClaim i r.claim db.queue h.0)

  loop-IsTidy :
      (ceiling : ℕ) (rounds : List Round) (processed : ℕ) (db : Database)
      → IsBetween processed db
      → IsTidy (run_claim_loop ceiling rounds processed db)
  unfolding run_claim_loop
  loop-IsTidy ceiling [] processed db h = (h.1, h.2)
  loop-IsTidy ceiling (r ∷ rest) processed db h =
      let claim = claim_next r.claim db.queue in
      claimed_round-IsTidy ceiling processed db h (λ m db'. run_claim_loop ceiling rest m db')
        (λ m db' h'. loop-IsTidy ceiling rest m db' h') r claim.0 claim.1
        (claim_next-IsClaim r.claim db.queue h.0)

  buffered_loop-IsTidy :
      (ceiling : ℕ) (rounds : List BufferedRound) (processed : ℕ) (db : Database)
      → IsBetween processed db
      → IsTidy (run_buffered_loop ceiling rounds processed db)
  unfolding run_buffered_loop
  buffered_loop-IsTidy ceiling [] processed db h = (h.1, h.2)
  buffered_loop-IsTidy ceiling (r ∷ rest) processed db h =
      with_ref-IsTidy ceiling processed db h (λ m db'. run_buffered_loop ceiling rest m db')
        (λ m db' h'. buffered_loop-IsTidy ceiling rest m db' h') r.ref r

-- On a queue whose ids are unique, run_claim_loop leaves as many rows IN_PROGRESS as it found when it
-- returns, restarts the browser, asks for a cooldown or goes on, and at most one more when it raises
-- or is cancelled; and it makes exactly as many rows DONE as it counts, whatever its rounds meet.
pub run_claim_loop-IsTidy :
    (ceiling : ℕ) (rounds : List Round) (processed : ℕ) (db : Database)
    → IsUnique db.queue
    → IsTidy
        (count_status in_progress db.queue)
        (count_status done db.queue)
        processed
        (run_claim_loop ceiling rounds processed db)
run_claim_loop-IsTidy ceiling rounds processed db u =
    loop-IsTidy (count_status in_progress db.queue) (count_status done db.queue) processed ceiling
      rounds processed db (u, refl, refl)

-- The same holds of _run_buffered_loop, with the candidates that it is handed, the jobs that it
-- releases while the gate is closed, and the gate open or closed at any of its rounds.
pub run_buffered_loop-IsTidy :
    (ceiling : ℕ) (rounds : List BufferedRound) (processed : ℕ) (db : Database)
    → IsUnique db.queue
    → IsTidy
        (count_status in_progress db.queue)
        (count_status done db.queue)
        processed
        (run_buffered_loop ceiling rounds processed db)
run_buffered_loop-IsTidy ceiling rounds processed db u =
    buffered_loop-IsTidy (count_status in_progress db.queue) (count_status done db.queue) processed
      ceiling rounds processed db (u, refl, refl)
