-- ===== src/Pool/Tests.antt =====
-- The pool at concrete policies and rounds.
use sport_crawl.Prelude.{
  ℕ, zero, suc, false, some, List, [], ◌∷◌, ◌≡◌, refl, All, replicate, leb, length, if◌then◌else◌,
}
use sport_crawl.Pool.Slot.{
  BackoffPolicy, Policies, Round, compute, float_pow, float_limit, start_raises, warmup_raises,
  loop_restart, loop_returns, closes, teardown_raises, slot_loop, run, round, after_try, raised,
  processed, still_running, backoff_overflow, teardown_error, Ending, EngineOutcome,
}
use sport_crawl.Pool.Engines.{nothing, watch_all, held_at, slot_loop-watched}
use sport_crawl.Pool.Backoff.{FailsToStart, run_raises}

abbrev browser_policy : BackoffPolicy
browser_policy = record { base = 2; factor = 2; max_delay = 120 }

abbrev policies : Policies
policies = record { browser_backoff = browser_policy; task_backoff = browser_policy }

abbrev plain : EngineOutcome → Ending → Round
plain outcome ending = record {
  factory_raises = false;
  outcome = outcome;
  jitter = 1;
  sleep_cancelled = false;
  ending = ending;
}

abbrev rounds : List Round
rounds = plain warmup_raises closes ∷ plain loop_restart closes ∷ plain (loop_returns 7) closes ∷ []

slot_loop-watched_example :
    let (did, result) = slot_loop policies 0 0 rounds in
    watch_all did nothing ≡ some (held_at result)
slot_loop-watched_example = slot_loop-watched policies 0 0 rounds

-- A teardown hook that raises leaves the engine open.
left_open :
    (slot_loop policies 0 0 (plain start_raises teardown_raises ∷ rounds)).1 ≡ raised teardown_error
unfolding slot_loop round after_try compute float_pow float_limit
left_open = refl

fourth_delay : compute browser_policy 4 1 ≡ some 17
unfolding compute float_pow float_limit
fourth_delay = refl

many_failures : (n : ℕ) → All FailsToStart (replicate n (plain start_raises closes))
many_failures zero = tt
many_failures (suc n) = ((refl, refl, refl, refl), many_failures n)

run_raises_example :
    let failures = replicate 1025 (plain start_raises closes) in
    (run policies 3 failures).1
    ≡ (if leb (length failures) 1024 then still_running else raised backoff_overflow)
run_raises_example =
    run_raises policies 3 (replicate 1025 (plain start_raises closes)) refl (many_failures 1025)

slot_returns : (run policies 3 rounds).1 ≡ processed 7
unfolding run slot_loop round after_try compute float_pow float_limit
slot_returns = refl
