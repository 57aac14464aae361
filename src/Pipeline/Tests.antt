-- ===== src/Pipeline/Tests.antt =====
-- scripts/scrape_pipeline.py: runs of the pipeline, and the theorems at them.
use sport_crawl.Prelude.{some, none, List, [], ◌∷◌, ◌++◌, true, false, ◌≡◌, refl, arith}
use sport_crawl.Pipeline.Tasks.{
  returned, failed, grand, start, Event, watcher_wakes, main_wakes, reseeder_wakes, player_ends,
  info_ends, waiting, gathering_players, finished, step, run,
}
use sport_crawl.Pipeline.Order.{IsOrdered, run-IsOrdered}
use sport_crawl.Pipeline.Stalled.{run-IsStalled}
use sport_crawl.Pipeline.Rounds.{rounds}
use sport_crawl.Pipeline.Finishing.{run-finished}

-- The trigger of 100 players is reached at the second count.
abbrev triggered : List Event
triggered =
    watcher_wakes none
    ∷ watcher_wakes (some 40)
    ∷ watcher_wakes none
    ∷ watcher_wakes (some 120)
    ∷ main_wakes (some 0)
    ∷ main_wakes (some 0)
    ∷ main_wakes (some 0)
    ∷ main_wakes (some 7)
    ∷ reseeder_wakes true
    ∷ []

-- The workers of the three steps end; one of them raises.
abbrev all_end : List Event
all_end = player_ends 0 (returned 2) ∷ info_ends 0 failed ∷ info_ends 1 (returned 5) ∷ []

triggered_state : (run 2 100 triggered (start 0 1 3)).main ≡ gathering_players
unfolding run step start
triggered_state = refl

whole_run : (run 2 100 (triggered ++ all_end ++ rounds 8 0) (start 0 1 3)).main ≡ finished
unfolding run step start
whole_run = refl

whole_run_total : grand (run 2 100 (triggered ++ all_end ++ rounds 8 0) (start 0 1 3)).info ≡ 5
unfolding run step start
whole_run_total = refl

run-IsOrdered_example : IsOrdered 0 1 2 100 (run 2 100 (triggered ++ all_end) (start 0 1 3))
run-IsOrdered_example = run-IsOrdered 0 1 2 100 3 (triggered ++ all_end)

run-finished_example :
    (run 2 100 (rounds 8 0) (run 2 100 (triggered ++ all_end) (start 0 1 3))).main ≡ finished
unfolding run step start
run-finished_example = run-finished 2 100 0 1 3 0 (triggered ++ all_end) refl refl refl refl (cc)

-- The only player worker has ended with 40 players in the table, and the watcher counts on.
abbrev small_queue : List Event
small_queue =
    watcher_wakes none
    ∷ player_ends 0 (returned 2)
    ∷ watcher_wakes (some 40)
    ∷ main_wakes (some 0)
    ∷ watcher_wakes none
    ∷ watcher_wakes (some 40)
    ∷ main_wakes (some 0)
    ∷ []

run-IsStalled_example :
    let p = run 2 100 small_queue (start 0 1 3) in
    (p.main ≡ waiting) × (p.step2_done ≡ false) × (p.info ≡ [])
run-IsStalled_example = run-IsStalled 2 100 0 1 3 small_queue (omega arith) (omega arith)
