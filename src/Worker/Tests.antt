-- ===== src/Worker/Tests.antt =====
-- The worker at concrete rounds.
use sport_crawl.Prelude.{ℕ, Bool, true, false, List, [], ◌∷◌, ◌++◌, ◌≡◌, refl}
use sport_crawl.Worker.Loop.{Round, Inner, cooldown_required, unexpected, starts, run, finished}
use sport_crawl.Worker.Restarts.{last_session, failed_start, run_finishes}

abbrev session : ℕ → Inner → Bool → Round
session jobs inner exit_raises = record {
  start = starts jobs inner exit_raises;
  jitter = 3;
  sleep_cancelled = false;
}

abbrev troubled : List Round
troubled = failed_start ∷ session 4 cooldown_required false ∷ session 2 unexpected true ∷ []

run_finishes_example : (run (troubled ++ last_session 5 0 3 ∷ [])).1 ≡ finished 11
run_finishes_example = run_finishes troubled 5 0 3 [] ((tt, refl), ((tt, refl), ((tt, refl), tt)))
