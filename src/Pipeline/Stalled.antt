-- ===== src/Pipeline/Stalled.antt =====
-- scripts/scrape_pipeline.py, main and _trigger_watcher: the wait for step3_ready.
use sport_crawl.Prelude.{ℕ, ◌<◌, false, none, some, List, [], ◌∷◌, ◌≡◌, refl, arith, All, if_ind}
use sport_crawl.Pipeline.Tasks.{
  Poll, polling, counting, left, broken, cancelled, waiting, Pipeline, start, Count, watch, Event,
  watcher_wakes, poller_wakes, main_wakes, reseeder_wakes, display_wakes, team_ends, player_ends,
  info_ends, poll, absent, is_over, wake, step, run,
}

-- The query of the watcher raises, or reads fewer players than the trigger asks for.
abbrev pub IsBelow : ℕ → Event → Type 0
IsBelow trigger_count (watcher_wakes (some players)) = players < trigger_count
IsBelow trigger_count _ = Unit

record IsStalled (p : Pipeline) : Type 0 where
  main : p.main ≡ waiting
  info : p.info ≡ []
  reseeder : p.reseeder ≡ absent
  step3_ready : p.step3_ready ≡ false
  step2_done : p.step2_done ≡ false
  cancel : p.cancel ≡ false

poll-IsStalled :
    (w : Poll) (answer : Count) (p : Pipeline) → IsStalled p → IsStalled (poll w answer p)
poll-IsStalled polling answer p h = ground arith
poll-IsStalled counting none p h = ground arith
poll-IsStalled counting (some n) p h = ground arith
poll-IsStalled w answer p h = h

module _ (workers trigger_count : ℕ) where
  watch-IsStalled :
      (w : Poll) (answer : Count) (p : Pipeline)
      → IsBelow trigger_count (watcher_wakes answer)
      → IsStalled p
      → IsStalled (watch trigger_count w answer p)
  watch-IsStalled polling answer p below h = ground arith
  watch-IsStalled counting none p below h = ground arith
  watch-IsStalled counting (some n) p below h = ground arith
  watch-IsStalled left answer p below h = h
  watch-IsStalled broken answer p below h = h
  watch-IsStalled cancelled answer p below h = h

  wake-IsStalled :
      (e : Event) (p : Pipeline)
      → IsBelow trigger_count e
      → IsStalled p
      → IsStalled (wake workers trigger_count e p)
  wake-IsStalled (watcher_wakes answer) p below h = watch-IsStalled p.watcher answer p below h
  wake-IsStalled (main_wakes answer) p below h = ground arith
  wake-IsStalled (poller_wakes answer) p below h = poll-IsStalled p.poller answer p h
  wake-IsStalled (reseeder_wakes b) p below h = ground arith
  wake-IsStalled display_wakes p below h = ground arith
  wake-IsStalled (team_ends i result) p below h = ground arith
  wake-IsStalled (player_ends i result) p below h = ground arith
  wake-IsStalled (info_ends i result) p below h = ground arith

  run_from-IsStalled :
      (events : List Event) (p : Pipeline)
      → All (IsBelow trigger_count) events
      → IsStalled p
      → IsStalled (run workers trigger_count events p)
  unfolding run step
  run_from-IsStalled [] p below h = h
  run_from-IsStalled (e ∷ rest) p below h =
      run_from-IsStalled rest _ below.1
        (if_ind IsStalled (is_over p.main) (λ _. h) (λ _. wake-IsStalled e p below.0 h))

-- With a player worker, and as long as no count of the watcher reaches the trigger, main waits for
-- step3_ready and starts no step-3 worker: also when all the workers have ended, since step2_done is
-- set only after the wait.
pub run-IsStalled :
    (workers trigger_count n_teams n_players s3_total : ℕ) (events : List Event)
    → 0 < n_players
    → All (IsBelow trigger_count) events
    → let p = run workers trigger_count events (start n_teams n_players s3_total) in
      (p.main ≡ waiting) × (p.step2_done ≡ false) × (p.info ≡ [])
unfolding start
run-IsStalled workers trigger_count n_teams n_players s3_total events some_player below =
    let h =
      run_from-IsStalled workers trigger_count events (start n_teams n_players s3_total) below
        (record {
          main = refl;
          info = refl;
          reseeder = refl;
          step3_ready = ground arith;
          step2_done = refl;
          cancel = refl;
        }) in
    (h.main, h.step2_done, h.info)
