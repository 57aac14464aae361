-- ===== src/Pipeline/Order.antt =====
-- scripts/scrape_pipeline.py, main: what has ended, and in which order.
use sport_crawl.Prelude.{
  ℕ, Bool, true, false, some, List, [], ◌∷◌, ◌≡◌, refl, arith, if_ind, sym, length-replicate,
  length,
}
use mathlib.Core.Bool.{true≢false}
use sport_crawl.Pipeline.Tasks.{
  running, all_ended, is_live, seeded, Main, waiting, recovering, draining, refreshing, finished,
  aborted, Pipeline, start, Count, wake_main, Event, watcher_wakes, poller_wakes, main_wakes,
  reseeder_wakes, display_wakes, team_ends, player_ends, info_ends, is_over, wake, step, run,
}
use sport_crawl.Pipeline.Facts.{Facts, Holds, is_last, wake_main-Holds}
use sport_crawl.Pipeline.Keeps.{
  Keeps, Keeps-Holds, Keeps-display, Keeps-info, Keeps-player, Keeps-poll, Keeps-reseed, Keeps-team,
  Keeps-watch,
}

-- Whether main has started the step-3 workers, and goes on.
abbrev is_started : Main → Bool
is_started waiting = false
is_started recovering = false
is_started draining = false
is_started refreshing = false
is_started aborted = false
is_started _ = true

module _ (n_teams n_players workers trigger_count : ℕ) where
  record IsCounted (p : Pipeline) : Type 0 where
    teams : length p.teams ≡ n_teams
    players : length p.players ≡ n_players
    info : is_started p.main ≡ true → length p.info ≡ workers

  Keeps-IsCounted : (p q : Pipeline) → Keeps p q → IsCounted p → IsCounted q
  Keeps-IsCounted p q k c = ground arith

  wake_main-IsCounted :
      (m : Main) (answer : Count) (p : Pipeline)
      → p.main ≡ m
      → IsCounted p
      → IsCounted (wake_main workers m answer p)
  wake_main-IsCounted refreshing (some n) p e c = record {
    teams = c.teams;
    players = c.players;
    info = λ _. length-replicate workers running;
  }
  wake_main-IsCounted m answer p e c = ground arith

  abbrev Invariant : Pipeline → Type 0
  Invariant p = Holds p × IsCounted p

  Keeps-Invariant : (p q : Pipeline) → Keeps p q → Invariant p → Invariant q
  Keeps-Invariant p q k h = (Keeps-Holds p q k h.0, Keeps-IsCounted p q k h.1)

  wake-Invariant :
      (e : Event) (p : Pipeline) → Invariant p → Invariant (wake workers trigger_count e p)
  wake-Invariant (main_wakes answer) p h = (
    wake_main-Holds workers p.main answer p refl h.0,
    wake_main-IsCounted p.main answer p refl h.1,
  )
  wake-Invariant (watcher_wakes answer) p h =
      Keeps-Invariant p _ (Keeps-watch trigger_count p.watcher answer p refl) h
  wake-Invariant (poller_wakes answer) p h =
      Keeps-Invariant p _ (Keeps-poll p.poller answer p refl) h
  wake-Invariant (reseeder_wakes b) p h = Keeps-Invariant p _ (Keeps-reseed p.reseeder b p refl) h
  wake-Invariant display_wakes p h = Keeps-Invariant p _ (Keeps-display p) h
  wake-Invariant (team_ends i result) p h = Keeps-Invariant p _ (Keeps-team p i result) h
  wake-Invariant (player_ends i result) p h = Keeps-Invariant p _ (Keeps-player p i result) h
  wake-Invariant (info_ends i result) p h = Keeps-Invariant p _ (Keeps-info p i result) h

  run-Invariant :
      (events : List Event) (p : Pipeline)
      → Invariant p
      → Invariant (run workers trigger_count events p)
  unfolding run step
  run-Invariant [] p h = h
  run-Invariant (e ∷ rest) p h =
      run-Invariant rest _ (if_ind Invariant (is_over p.main) (λ _. h) (λ _. wake-Invariant e p h))

  start-Invariant : (s3_total : ℕ) → Invariant (start n_teams n_players s3_total)
  unfolding start
  start-Invariant s3_total = (
    (refl, refl, refl, refl, refl),
    record {
      teams = length-replicate n_teams running;
      players = length-replicate n_players running;
      info = λ e. absurd (true≢false (sym e));
    },
  )

  pub run-Holds :
      (s3_total : ℕ) (events : List Event)
      → Holds (run workers trigger_count events (start n_teams n_players s3_total))
  run-Holds s3_total events =
      (run-Invariant events (start n_teams n_players s3_total) (start-Invariant s3_total)).0

  -- The pipeline has returned: all that it has started is over.
  pub record IsFinished (p : Pipeline) : Type 0 where
    pub teams : all_ended p.teams ≡ true
    pub players : all_ended p.players ≡ true
    pub info : all_ended p.info ≡ true
    pub info_count : length p.info ≡ workers
    pub last_drain : p.reseeder ≡ seeded
    pub watcher : is_live p.watcher ≡ false
    pub poller : is_live p.poller ≡ false
    pub display : p.display ≡ false

  pub record IsOrdered (p : Pipeline) : Type 0 where
    pub teams_count : length p.teams ≡ n_teams
    pub players_count : length p.players ≡ n_players
    pub no_info : p.step3_ready ≡ false → p.info ≡ []
    pub trigger_first : p.step2_done ≡ true → p.step3_ready ≡ true
    pub players_first : p.step2_done ≡ true → all_ended p.players ≡ true
    pub drain_last : is_last p.reseeder ≡ true → p.step2_done ≡ true
    pub at_end : p.main ≡ finished → IsFinished p

  IsOrdered-of : (m : Main) (p : Pipeline) → p.main ≡ m → Facts m p → IsCounted p → IsOrdered p
  IsOrdered-of waiting p e h c = ground arith
  IsOrdered-of m p e h c = ground arith

  -- However the tasks interleave: no step-3 worker exists before step3_ready; step2_done follows
  -- step3_ready and the end of every player worker; the last drain of the reseeder begins after
  -- step2_done; and when main has finished, every worker of the three steps, as many as asked for,
  -- the last drain, the watcher, the poller and the display are over.
  pub run-IsOrdered :
      (s3_total : ℕ) (events : List Event)
      → IsOrdered (run workers trigger_count events (start n_teams n_players s3_total))
  run-IsOrdered s3_total events =
      let p = run workers trigger_count events (start n_teams n_players s3_total) in
      let h = run-Invariant events (start n_teams n_players s3_total) (start-Invariant s3_total) in
      IsOrdered-of p.main p refl h.0 h.1
