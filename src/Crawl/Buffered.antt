-- ===== src/Crawl/Buffered.antt =====
-- scripts/scrape_player_info.py, PlayerInfoWorker.run_buffered: the browser sessions of a worker that
-- is fed by the buffer, and its calls of the rate-limit gate.
use sport_crawl.Prelude.{ℕ, ◌+◌, Bool, true, false, List, [], ◌∷◌, ◌++◌, leb, if◌then◌else◌}
use sport_crawl.Gate.State.{Event, signal, cancel, engine_ready}
use sport_crawl.Worker.Loop.{
  Inner, cooldown_required, cancelled, unexpected, restart, exhausted, Action, enter, exit, label,
  sleep, unexpected_error, browser_failed, cooldown, start_failed, Next, returns, cancels, again,
  max_restarts, after_sleep, WorkerResult, still_running, go_on,
}

-- What a session does once its browser is up: on_browser_ready raises, or is cancelled, or the loop
-- runs, signals rate limits at the given times, with a probe or without, adds jobs, and ends.
pub data Session : Type 0 where
  warmup_fails warmup_cancelled : Session
  warm : List (ℕ × Bool) → ℕ → Inner → Session

pub data BufferedStart : Type 0 where
  build_fails build_cancelled : BufferedStart
  builds : Session → Bool → BufferedStart

pub record SessionRound : Type 0 where
  pub start : BufferedStart
  pub jitter : ℕ
  pub sleep_cancelled : Bool

-- A step that BaseWorker.run has too, or a call of the gate.
pub data Step : Type 0 where
  did : Action → Step
  calls : Event → Step

abbrev pub inner_of : Session → Inner
inner_of warmup_fails = unexpected
inner_of warmup_cancelled = cancelled
inner_of (warm signals jobs inner) = inner

abbrev pub jobs_of : BufferedStart → ℕ
jobs_of (builds (warm signals jobs inner) exit_raises) = jobs
jobs_of _ = 0

module _ (has_gate : Bool) where
  abbrev pub told : Event → List Step
  told e = if has_gate then calls e ∷ [] else []

  abbrev pub signalled : List (ℕ × Bool) → List Step
  signalled [] = []
  signalled (s ∷ rest) = told (signal s.0 "rate_limit_429" s.1) ++ signalled rest

  abbrev pub session_calls : Session → List Step
  session_calls (warm signals jobs inner) = told engine_ready ++ signalled signals
  session_calls _ = []

  -- `except Exception` of the outer block.
  abbrev pub build_failure : ℕ → Bool → List Step × Next
  build_failure restart_count sleep_cancelled =
      if leb max_restarts (restart_count + 1)
      then (
        told cancel ++ did (label browser_failed) ∷ did (sleep 60) ∷ [],
        after_sleep sleep_cancelled (again 0),
      )
      else (
        told cancel ++ did (label (start_failed (restart_count + 1))) ∷ did (sleep 10) ∷ [],
        after_sleep sleep_cancelled (again (restart_count + 1)),
      )

  abbrev pub exit_failure : List Step → Bool → List Step × Next
  exit_failure before sleep_cancelled =
      let (steps, next) = build_failure 0 sleep_cancelled in (before ++ did exit ∷ steps, next)

  abbrev pub unexpected_steps : List Step
  unexpected_steps = told cancel ++ did (label unexpected_error) ∷ did (sleep 5) ∷ []

  -- The handlers of the inner block, the exit of the browser, and what follows them.
  abbrev pub session_end : Inner → Bool → ℕ → Bool → List Step × Next
  session_end unexpected true jitter sleep_cancelled = exit_failure unexpected_steps false
  session_end unexpected false jitter sleep_cancelled =
      (unexpected_steps ++ did exit ∷ [], after_sleep sleep_cancelled (again 0))
  session_end cancelled true jitter sleep_cancelled = exit_failure [] sleep_cancelled
  session_end cancelled false jitter sleep_cancelled = (did exit ∷ [], cancels)
  session_end (exhausted n) true jitter sleep_cancelled = exit_failure [] sleep_cancelled
  session_end (exhausted n) false jitter sleep_cancelled = (did exit ∷ [], returns)
  session_end restart true jitter sleep_cancelled = exit_failure [] sleep_cancelled
  session_end restart false jitter sleep_cancelled = (did exit ∷ [], again 0)
  session_end cooldown_required true jitter sleep_cancelled = exit_failure [] sleep_cancelled
  session_end cooldown_required false jitter sleep_cancelled = (
    did exit ∷ told cancel
        ++ did (label cooldown)
          ∷ did (sleep 60)
          ∷ (if sleep_cancelled then [] else did (sleep jitter) ∷ []),
    after_sleep sleep_cancelled (again 0),
  )

  abbrev pub begin_session : BufferedStart → ℕ → ℕ → Bool → List Step × Next
  begin_session build_fails restart_count jitter sleep_cancelled =
      build_failure restart_count sleep_cancelled
  begin_session build_cancelled restart_count jitter sleep_cancelled = ([], cancels)
  begin_session (builds session exit_raises) restart_count jitter sleep_cancelled =
      let (steps, next) = session_end (inner_of session) exit_raises jitter sleep_cancelled in
      (did enter ∷ session_calls session ++ steps, next)

  unfoldable pub sessions : ℕ → ℕ → List SessionRound → List Step × WorkerResult
  sessions processed restart_count [] = ([], still_running)
  sessions processed restart_count (r ∷ rest) =
      let total = processed + jobs_of r.start in
      let (steps, next) = begin_session r.start restart_count r.jitter r.sleep_cancelled in
      let (later, result) = go_on next total (λ c. sessions total c rest) in
      (steps ++ later, result)

  unfoldable pub run_buffered : List SessionRound → List Step × WorkerResult
  run_buffered rounds = sessions 0 0 rounds
