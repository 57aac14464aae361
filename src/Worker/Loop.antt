-- ===== src/Worker/Loop.antt =====
-- core/application/base_worker.py, BaseWorker.run. Sleeps are whole seconds.
use sport_crawl.Prelude.{ℕ, ◌+◌, Bool, true, false, List, [], ◌∷◌, ◌++◌, leb, if◌then◌else◌}

-- What the inner block does once the browser is up: on_browser_ready and run_claim_loop. The claim
-- loop counts the jobs of the worker, `processed`, before it returns or raises.
pub data Inner : Type 0 where
  cooldown_required cancelled unexpected restart : Inner
  exhausted : ℕ → Inner

-- What one round of the `while True` loop meets. `start_fails` is an exception of _build_engine or
-- of __aenter__; `exit_raises` one of __aexit__.
pub data Start : Type 0 where
  start_fails start_cancelled : Start
  starts : ℕ → Inner → Bool → Start

-- One round: the browser's behaviour, the jitter of the cooldown, and whether the worker is
-- cancelled in the first sleep of the round.
pub record Round : Type 0 where
  pub start : Start
  pub jitter : ℕ
  pub sleep_cancelled : Bool

-- What the display shows for the worker.
pub data Label : Type 0 where
  unexpected_error browser_failed cooldown : Label
  start_failed : ℕ → Label

pub data Action : Type 0 where
  enter exit : Action
  label : Label → Action
  sleep : ℕ → Action

pub data Next : Type 0 where
  returns cancels : Next
  again : ℕ → Next

abbrev pub max_restarts : ℕ
max_restarts = 5

abbrev pub after_sleep : Bool → Next → Next
after_sleep sleep_cancelled next = if sleep_cancelled then cancels else next

-- `except Exception` of the outer block.
abbrev pub start_failure : ℕ → Bool → List Action × Next
start_failure restart_count sleep_cancelled =
    if leb max_restarts (restart_count + 1)
    then (label browser_failed ∷ sleep 60 ∷ [], after_sleep sleep_cancelled (again 0))
    else (
      label (start_failed (restart_count + 1)) ∷ sleep 10 ∷ [],
      after_sleep sleep_cancelled (again (restart_count + 1)),
    )

-- The browser's exit raised: the exception replaces a return, a `continue`, a cancellation and the
-- cooldown alike. restart_count is 0 here.
abbrev pub exit_failed : List Action → Bool → List Action × Next
exit_failed before sleep_cancelled =
    let (did, next) = start_failure 0 sleep_cancelled in (before ++ exit ∷ did, next)

-- The inner block, the exit of the browser, and what follows them.
abbrev pub browser_up : Inner → Bool → ℕ → Bool → List Action × Next
browser_up unexpected true jitter sleep_cancelled =
    exit_failed (label unexpected_error ∷ sleep 5 ∷ []) false
browser_up unexpected false jitter sleep_cancelled =
    (label unexpected_error ∷ sleep 5 ∷ exit ∷ [], after_sleep sleep_cancelled (again 0))
browser_up cancelled true jitter sleep_cancelled = exit_failed [] sleep_cancelled
browser_up cancelled false jitter sleep_cancelled = (exit ∷ [], cancels)
browser_up (exhausted n) true jitter sleep_cancelled = exit_failed [] sleep_cancelled
browser_up (exhausted n) false jitter sleep_cancelled = (exit ∷ [], returns)
browser_up restart true jitter sleep_cancelled = exit_failed [] sleep_cancelled
browser_up restart false jitter sleep_cancelled = (exit ∷ [], again 0)
browser_up cooldown_required true jitter sleep_cancelled = exit_failed [] sleep_cancelled
browser_up cooldown_required false jitter sleep_cancelled = (
  exit ∷ label cooldown ∷ sleep 60 ∷ (if sleep_cancelled then [] else sleep jitter ∷ []),
  after_sleep sleep_cancelled (again 0),
)

-- The jobs that the session added to the worker's count.
abbrev pub session_jobs : Start → ℕ
session_jobs (starts jobs inner exit_raises) = jobs
session_jobs _ = 0

abbrev pub begin : Start → ℕ → ℕ → Bool → List Action × Next
begin start_fails restart_count jitter sleep_cancelled = start_failure restart_count sleep_cancelled
begin start_cancelled restart_count jitter sleep_cancelled = ([], cancels)
begin (starts jobs inner exit_raises) restart_count jitter sleep_cancelled =
    let (did, next) = browser_up inner exit_raises jitter sleep_cancelled in (enter ∷ did, next)

unfoldable pub round : ℕ → Round → List Action × Next
round restart_count r = begin r.start restart_count r.jitter r.sleep_cancelled

-- How a worker that went through the given rounds stands; `finished` carries self._processed.
pub data WorkerResult : Type 0 where
  finished : ℕ → WorkerResult
  was_cancelled still_running : WorkerResult

abbrev pub go_on {ℓ} : {A : Type ℓ} → Next → ℕ → (ℕ → List A × WorkerResult) → List A × WorkerResult
go_on returns processed loop = ([], finished processed)
go_on cancels processed loop = ([], was_cancelled)
go_on (again restart_count) processed loop = loop restart_count

unfoldable pub run_loop : ℕ → ℕ → List Round → List Action × WorkerResult
run_loop processed restart_count [] = ([], still_running)
run_loop processed restart_count (r ∷ rest) =
    let total = processed + session_jobs r.start in
    let (did, next) = round restart_count r in
    let (later, result) = go_on next total (λ c. run_loop total c rest) in (did ++ later, result)

unfoldable pub run : List Round → List Action × WorkerResult
run rounds = run_loop 0 0 rounds
