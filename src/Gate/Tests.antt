-- ===== src/Gate/Tests.antt =====
-- The gate at concrete runs.
use sport_crawl.Prelude.{true, false, List, [], ◌∷◌, ◌≡◌, refl}
use sport_crawl.Gate.State.{
  Event, Answer, elapsed, ready, timed_out, not_ready, signal, wake, wake_orphan, engine_ready, run,
  is_running,
}
use sport_crawl.Gate.Reopening.{IsSound, new_system, new_gate-IsSound}
use sport_crawl.Gate.Probes.{answered, recovery_ends}

-- A gate that a new engine opens, and that closes again while the old recovery is still dying.
abbrev script : List Event
script =
    signal 10 "rate_limit" true
    ∷ wake elapsed
    ∷ engine_ready
    ∷ signal 20 "rate_limit" false
    ∷ wake_orphan 0 elapsed
    ∷ wake elapsed
    ∷ []

new_gate-IsSound_example : IsSound (run script (new_system 60 30 3))
new_gate-IsSound_example = new_gate-IsSound 60 30 3 script

abbrev answers : List Answer
answers = timed_out ∷ ready ∷ not_ready ∷ []

recovery_ends_example :
    let s' =
      run
        (signal 7 "rate_limit" true ∷ wake elapsed ∷ wake elapsed ∷ answered answers)
        (new_system 60 30 3) in
    (s'.gate.is_open ≡ true) × (is_running s'.gate.recovery_task ≡ false)
recovery_ends_example = recovery_ends 7 "rate_limit" answers (new_system 60 30 3) refl refl
