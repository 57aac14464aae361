-- ===== src/Pool/Slot.antt =====
-- infrastructure/browser/pool.py: BackoffPolicy, WorkerSlot.run and WarmBrowserPool. Delays are whole
-- seconds; a float is modelled by its whole value, with the overflow of `**`.
use sport_crawl.Prelude.{
  ℕ, zero, suc, ◌+◌, ◌-◌, ◌*◌, ◌^◌, Bool, true, false, Option, none, some, List, [], ◌∷◌, ◌++◌, map,
  ltb, not, if◌then◌else◌, min,
}

pub record BackoffPolicy : Type 0 where
  pub base : ℕ
  pub factor : ℕ
  pub max_delay : ℕ

-- From this value on a power rounds past the largest double, and `**` raises OverflowError.
unfoldable pub float_limit : ℕ
float_limit = 2 ^ 1024 - 2 ^ 970

unfoldable pub float_pow : ℕ → ℕ → Option ℕ
float_pow factor k = if ltb (factor ^ k) float_limit then some (factor ^ k) else none

abbrev pub capped : BackoffPolicy → ℕ → Option ℕ → Option ℕ
capped p jitter none = none
capped p jitter (some power) = some (min (p.base * power) p.max_delay + jitter)

-- `none` is the OverflowError; `jitter` is what the jitter function returned.
unfoldable pub compute : BackoffPolicy → ℕ → ℕ → Option ℕ
compute p attempt jitter = capped p jitter (float_pow p.factor (attempt - 1))

-- What the engine and the claim loop do in one session, up to where the try block is left.
pub data EngineOutcome : Type 0 where
  start_wait_cancelled start_raises start_cancelled : EngineOutcome
  warmup_wait_cancelled warmup_raises warmup_cancelled : EngineOutcome
  hook_raises loop_raises loop_cancelled loop_restart : EngineOutcome
  loop_returns : ℕ → EngineOutcome

-- How the finally block goes.
pub data Ending : Type 0 where
  closes teardown_raises close_raises : Ending

-- One round of the `while True` loop, as its environment decides it.
pub record Round : Type 0 where
  pub factory_raises : Bool
  pub outcome : EngineOutcome
  pub jitter : ℕ
  pub sleep_cancelled : Bool
  pub ending : Ending

-- What a slot does, in order.
pub data Action : Type 0 where
  create acquire_start release_start acquire_warmup release_warmup warmed claim teardown close :
      Action
  sleep : ℕ → Action

-- How the try block is left.
pub data Exit : Type 0 where
  returns : ℕ → Exit
  restarts fails cancels : Exit

abbrev pub started : List Action
started = acquire_start ∷ release_start ∷ []

abbrev pub warmed_up : List Action
warmed_up = started ++ acquire_warmup ∷ release_warmup ∷ []

-- The try block: what it does, whether it passed the reset of browser_failures, how it is left.
-- A semaphore is released however its block is left.
abbrev pub try_block : EngineOutcome → List Action × Bool × Exit
try_block start_wait_cancelled = ([], false, cancels)
try_block start_raises = (started, false, fails)
try_block start_cancelled = (started, false, cancels)
try_block warmup_wait_cancelled = (started, false, cancels)
try_block warmup_raises = (warmed_up, false, fails)
try_block warmup_cancelled = (warmed_up, false, cancels)
try_block hook_raises = (warmed_up ++ warmed ∷ [], true, fails)
try_block loop_raises = (warmed_up ++ warmed ∷ claim ∷ [], true, fails)
try_block loop_cancelled = (warmed_up ++ warmed ∷ claim ∷ [], true, cancels)
try_block loop_restart = (warmed_up ++ warmed ∷ claim ∷ [], true, restarts)
try_block (loop_returns n) = (warmed_up ++ warmed ∷ claim ∷ [], true, returns n)

-- What ends a slot with an exception: the engine factory, the overflow of a backoff in the handler,
-- the teardown hook, or the close of the engine.
pub data Cause : Type 0 where
  factory_error backoff_overflow teardown_error close_error : Cause

-- How a slot goes on: it returns, raises, is cancelled, or goes round with its two counters.
pub data Next : Type 0 where
  finished : ℕ → Next
  crashed : Cause → Next
  cancelled : Next
  again : ℕ → ℕ → Next

pub record Policies : Type 0 where
  pub browser_backoff : BackoffPolicy
  pub task_backoff : BackoffPolicy

abbrev pub slept : Bool → ℕ → Next → List Action × Next
slept is_cancelled delay next = (sleep delay ∷ [], if is_cancelled then cancelled else next)

-- `except Exception`: an overflow of its own backoff leaves the handler.
abbrev pub except_block : Option ℕ → Bool → ℕ → ℕ → List Action × Next
except_block none is_cancelled browser_failures task_failures = ([], crashed backoff_overflow)
except_block (some delay) is_cancelled browser_failures task_failures =
    slept is_cancelled delay (again browser_failures task_failures)

abbrev pub on_failure : Policies → Round → ℕ → ℕ → List Action × Next
on_failure p r browser_failures task_failures =
    except_block (compute p.browser_backoff (browser_failures + 1) r.jitter) r.sleep_cancelled
      (browser_failures + 1) task_failures

-- After a claim loop that asked for a restart; an overflow of this backoff is caught below.
abbrev pub on_restart : Policies → Round → ℕ → ℕ → Option ℕ → List Action × Next
on_restart p r browser_failures task_failures none = on_failure p r browser_failures task_failures
on_restart p r browser_failures task_failures (some delay) =
    slept r.sleep_cancelled delay (again browser_failures task_failures)

unfoldable pub after_try : Policies → Round → ℕ → ℕ → Exit → List Action × Next
after_try p r browser_failures task_failures (returns n) = ([], finished n)
after_try p r browser_failures task_failures cancels = ([], cancelled)
after_try p r browser_failures task_failures fails = on_failure p r browser_failures task_failures
after_try p r browser_failures task_failures restarts =
    on_restart p r browser_failures (task_failures + 1)
      (compute p.task_backoff (task_failures + 1) r.jitter)

-- The finally block; what it raises replaces everything else.
abbrev pub finally_block : Ending → Next → List Action × Next
finally_block closes next = (teardown ∷ close ∷ [], next)
finally_block teardown_raises next = (teardown ∷ [], crashed teardown_error)
finally_block close_raises next = (teardown ∷ close ∷ [], crashed close_error)

unfoldable pub round : Policies → ℕ → ℕ → Round → List Action × Next
round p browser_failures task_failures r =
    let (did, reset, exit) = try_block r.outcome in
    let (handled, next) =
      after_try p r (if reset then 0 else browser_failures) task_failures exit in
    let (ended, last) = finally_block r.ending next in
    if r.factory_raises
    then ([], crashed factory_error)
    else ((create ∷ did) ++ (handled ++ ended), last)

-- How a slot that went through the given rounds stands.
pub data SlotResult : Type 0 where
  processed : ℕ → SlotResult
  raised : Cause → SlotResult
  was_cancelled still_running : SlotResult

abbrev pub go_on : Next → (ℕ → ℕ → List Action × SlotResult) → List Action × SlotResult
go_on (finished n) loop = ([], processed n)
go_on (crashed c) loop = ([], raised c)
go_on cancelled loop = ([], was_cancelled)
go_on (again browser_failures task_failures) loop = loop browser_failures task_failures

unfoldable pub slot_loop : Policies → ℕ → ℕ → List Round → List Action × SlotResult
slot_loop p browser_failures task_failures [] = ([], still_running)
slot_loop p browser_failures task_failures (r ∷ rest) =
    let (did, next) = round p browser_failures task_failures r in
    let (later, result) = go_on next (λ b t. slot_loop p b t rest) in (did ++ later, result)

-- The startup jitter, then the loop.
unfoldable pub run : Policies → ℕ → List Round → List Action × SlotResult
run p startup_jitter rounds =
    let (did, result) = slot_loop p 0 0 rounds in (sleep startup_jitter ∷ did, result)

abbrev pub slot_ids : ℕ → ℕ → List ℕ
slot_ids first zero = []
slot_ids first (suc n) = first ∷ slot_ids (first + 1) n

-- WarmBrowserPool: its slots, numbered from 1, run side by side and each gives its own result.
pub record WarmBrowserPool : Type 0 where
  pub slots : List ℕ

unfoldable pub new_pool : ℕ → WarmBrowserPool
new_pool size = record { slots = slot_ids 1 size }

unfoldable pub run_pool : WarmBrowserPool → Policies → (ℕ → ℕ) → (ℕ → List Round) → List SlotResult
run_pool pool p startup_jitter rounds =
    map (λ (slot : ℕ). (run p (startup_jitter slot) (rounds slot)).1) pool.slots

unfoldable pub build_warm_pool_if_enabled : Bool → ℕ → Option WarmBrowserPool
build_warm_pool_if_enabled enabled pool_size =
    if not enabled then none else some (new_pool pool_size)
