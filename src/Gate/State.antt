-- ===== src/Gate/State.antt =====
-- infrastructure/browser/gate.py, class RateLimitGate, with its recovery task as a coroutine. Times
-- are seconds.
use sport_crawl.Prelude.{
  ℕ, zero, suc, ◌+◌, String, Bool, true, false, Option, none, some, List, [], ◌∷◌, ◌&&◌, ◌||◌, not,
  ltb, leb, if◌then◌else◌, min,
}

-- Where the recovery coroutine is suspended: not yet started, in the cooldown, in probe number n,
-- in the backoff after probe n, or done.
pub data Phase : Type 0 where
  created cooling : Phase
  probing backing : ℕ → Phase
  finished : Phase

-- `cancelling` is an asyncio cancellation that the task has not met yet: it meets it when it wakes.
pub record Task : Type 0 where
  pub phase : Phase
  pub has_probe : Bool
  pub cancelling : Bool

abbrev pub is_done : Task → Bool
is_done t = elim t.phase [ finished ↦ true | _ ↦ false ]

pub record RateLimitGate : Type 0 where
  pub is_open : Bool
  pub close_reason : Option String
  pub close_time : Option ℕ
  pub cooldown_secs : ℕ
  pub probe_timeout_secs : ℕ
  pub max_probe_attempts : ℕ
  pub recovery_task : Option Task

abbrev pub new_gate : ℕ → ℕ → ℕ → RateLimitGate
new_gate cooldown timeout attempts = record {
  is_open = true;
  close_reason = none;
  close_time = none;
  cooldown_secs = cooldown;
  probe_timeout_secs = timeout;
  max_probe_attempts = attempts;
  recovery_task = none;
}

-- What wakes a suspended recovery: its sleep is over, or its probe answers.
pub data Answer : Type 0 where
  elapsed ready not_ready timed_out raised : Answer

abbrev pub is_ready : Answer → Bool
is_ready ready = true
is_ready _ = false

-- The head of `for attempt in range(1, max_probe_attempts + 1)`.
abbrev pub attempt : ℕ → RateLimitGate → Phase
attempt n g = if leb n g.max_probe_attempts then probing n else finished

-- The coroutine from one suspension to the next: its new phase, and whether it opens the gate.
abbrev pub advance : Phase → Bool → Answer → RateLimitGate → Phase × Bool
advance created has_probe answer g = (cooling, false)
advance cooling has_probe answer g = if has_probe then (attempt 1 g, false) else (finished, true)
advance (probing n) has_probe answer g =
    if is_ready answer
    then (finished, true)
    else if ltb n g.max_probe_attempts
    then (backing n, false)
    else (finished, false)
advance (backing n) has_probe answer g = (attempt (n + 1) g, false)
advance finished has_probe answer g = (finished, false)

-- A cancelled task raises CancelledError at its suspension and ends; nothing catches it.
unfoldable pub run_recovery : Answer → Task → RateLimitGate → Task × RateLimitGate
run_recovery answer t g =
    if t.cancelling
    then (record t { phase = finished }, g)
    else let (phase, opens) = advance t.phase t.has_probe answer g in
      (record t { phase = phase }, record g { is_open = g.is_open || opens })

-- The seconds that a suspended recovery sleeps.
abbrev pub sleeping_secs : Phase → RateLimitGate → Option ℕ
sleeping_secs cooling g = some g.cooldown_secs
sleeping_secs (backing n) g = some (min g.cooldown_secs 300)
sleeping_secs _ g = none

abbrev pub is_running : Option Task → Bool
is_running none = false
is_running (some t) = not (is_done t)

-- The gate and the tasks that it no longer refers to but that the event loop still runs.
pub record System : Type 0 where
  pub gate : RateLimitGate
  pub orphans : List Task

abbrev pub dropped : Option Task → List Task → List Task
dropped none orphans = orphans
dropped (some t) orphans = t ∷ orphans

unfoldable pub signal_rate_limit : ℕ → String → Bool → System → System
signal_rate_limit now reason has_probe s =
    if not s.gate.is_open && is_running s.gate.recovery_task then s else record {
      gate = record s.gate {
        is_open = false;
        close_reason = some reason;
        close_time = some now;
        recovery_task =
            some (record { phase = created; has_probe = has_probe; cancelling = false });
      };
      orphans = dropped s.gate.recovery_task s.orphans;
    }

-- `task.cancel()` on a task that is not done.
abbrev pub cancelled : Option Task → Option Task
cancelled none = none
cancelled (some t) = some (if is_done t then t else record t { cancelling = true })

unfoldable pub cancel_recovery : RateLimitGate → RateLimitGate
cancel_recovery g = record g { recovery_task = cancelled g.recovery_task }

unfoldable pub mark_engine_ready : RateLimitGate → RateLimitGate
mark_engine_ready g = record g { recovery_task = cancelled g.recovery_task; is_open = true }

unfoldable pub shutdown : RateLimitGate → RateLimitGate
shutdown g = record g { recovery_task = cancelled g.recovery_task }

-- wait_if_closed yields once and then polls: where a waiting worker stands when it wakes.
pub data Waiting : Type 0 where
  polling passed : Waiting

unfoldable pub wait_if_closed : RateLimitGate → Waiting
wait_if_closed g = if not g.is_open then polling else passed

-- One event: a call of a method, or the event loop waking a task.
pub data Event : Type 0 where
  signal : ℕ → String → Bool → Event
  wake : Answer → Event
  wake_orphan : ℕ → Answer → Event
  cancel engine_ready stop : Event

abbrev pub wake_current : Answer → Option Task → RateLimitGate → RateLimitGate
wake_current answer none g = g
wake_current answer (some t) g =
    let (t', g') = run_recovery answer t g in record g' { recovery_task = some t' }

-- The k-th orphan wakes.
abbrev pub wake_nth : ℕ → Answer → List Task → RateLimitGate → List Task × RateLimitGate
wake_nth k answer [] g = ([], g)
wake_nth zero answer (t ∷ rest) g = let (t', g') = run_recovery answer t g in (t' ∷ rest, g')
wake_nth (suc k) answer (t ∷ rest) g = let (rest', g') = wake_nth k answer rest g in (t ∷ rest', g')

unfoldable pub act : Event → System → System
act (signal now reason has_probe) s = signal_rate_limit now reason has_probe s
act (wake answer) s = record s { gate = wake_current answer s.gate.recovery_task s.gate }
act (wake_orphan k answer) s =
    let (orphans, gate) = wake_nth k answer s.orphans s.gate in
    record { gate = gate; orphans = orphans }
act cancel s = record s { gate = cancel_recovery s.gate }
act engine_ready s = record s { gate = mark_engine_ready s.gate }
act stop s = record s { gate = shutdown s.gate }

unfoldable pub run : List Event → System → System
run [] s = s
run (e ∷ rest) s = run rest (act e s)
