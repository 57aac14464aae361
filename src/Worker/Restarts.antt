-- ===== src/Worker/Restarts.antt =====
-- How a worker restarts, and when it stops.
use native.Mathlib.Decide.{dec_lt}
use sport_crawl.Prelude.{
  ℕ, zero, suc, ◌+◌, ◌*◌, ◌/◌, ◌%◌, ◌<◌, Bool, true, false, List, [], ◌∷◌, ◌++◌, ◌≡◌, refl, ap, ◌∙◌,
  arith, leb, if◌then◌else◌, All, replicate, inl, inr, Bool-cases,
}
use sport_crawl.Worker.Loop.{
  Inner, cooldown_required, cancelled, unexpected, restart, exhausted, Start, start_fails,
  start_cancelled, starts, Round, Action, enter, exit, sleep, label, again, round, run_loop, run,
  finished, still_running, max_restarts, session_jobs, begin,
}

-- The seconds that a worker sleeps.
abbrev pub slept : List Action → ℕ
slept [] = 0
slept (sleep n ∷ rest) = n + slept rest
slept (_ ∷ rest) = slept rest

slept-append : (xs ys : List Action) → slept (xs ++ ys) ≡ slept xs + slept ys
slept-append [] ys = omega arith
slept-append (sleep n ∷ xs) ys = omega (arith, slept-append xs ys)
slept-append (enter ∷ xs) ys = slept-append xs ys
slept-append (exit ∷ xs) ys = slept-append xs ys
slept-append (label l ∷ xs) ys = slept-append xs ys

-- The jobs of all sessions.
abbrev pub all_jobs : List Round → ℕ
all_jobs [] = 0
all_jobs (r ∷ rest) = session_jobs r.start + all_jobs rest

-- Rounds after which the worker goes round again: the browser does not start, or its session ends in
-- anything but an exhausted queue or a cancellation, or the browser's exit raises.
abbrev pub GoesOn : Start → Type 0
GoesOn start_fails = Unit
GoesOn start_cancelled = ⊥
GoesOn (starts jobs inner true) = Unit
GoesOn (starts jobs (exhausted n) false) = ⊥
GoesOn (starts jobs cancelled false) = ⊥
GoesOn (starts jobs inner false) = Unit

abbrev pub Persists : Round → Type 0
Persists r = GoesOn r.start × (r.sleep_cancelled ≡ false)

begin_again :
    (start : Start) (count jitter : ℕ) (c : Bool)
    → GoesOn start
    → c ≡ false
    → (k : ℕ) × ((begin start count jitter c).1 ≡ again k)
begin_again start_fails count jitter c g e =
    (if leb max_restarts (count + 1) then 0 else count + 1, ground arith)
begin_again start_cancelled count jitter c g e = absurd g
begin_again (starts jobs unexpected true) count jitter c g e = (1, refl)
begin_again (starts jobs unexpected false) count jitter c g e = (0, ground arith)
begin_again (starts jobs cancelled true) count jitter c g e = (1, ground arith)
begin_again (starts jobs cancelled false) count jitter c g e = absurd g
begin_again (starts jobs (exhausted n) true) count jitter c g e = (1, ground arith)
begin_again (starts jobs (exhausted n) false) count jitter c g e = absurd g
begin_again (starts jobs restart true) count jitter c g e = (1, ground arith)
begin_again (starts jobs restart false) count jitter c g e = (0, ground arith)
begin_again (starts jobs cooldown_required true) count jitter c g e = (1, ground arith)
begin_again (starts jobs cooldown_required false) count jitter c g e = (0, ground arith)

abbrev pub last_session : ℕ → ℕ → ℕ → Round
last_session jobs result jitter = record {
  start = starts jobs (exhausted result) false;
  jitter = jitter;
  sleep_cancelled = false;
}

run_loop_finishes :
    (processed count : ℕ) (rounds : List Round) (jobs result jitter : ℕ) (rest : List Round)
    → All Persists rounds
    → (run_loop processed count (rounds ++ last_session jobs result jitter ∷ rest)).1
      ≡ finished (processed + all_jobs rounds + jobs)
unfolding run_loop round
run_loop_finishes processed count [] jobs result jitter rest h = ap finished (omega arith)
run_loop_finishes processed count (r ∷ rounds) jobs result jitter rest h =
    let (k, e) = begin_again r.start count r.jitter r.sleep_cancelled h.0.0 h.0.1 in
    rw e (
      run_loop_finishes (processed + session_jobs r.start) k rounds jobs result jitter rest h.1
      ∙ ap finished (omega arith))

-- However many times the browser fails to start, the session ends in an error, a restart or a
-- cooldown, or the browser's exit raises, the worker goes on, and at the first session that finds
-- the queue exhausted and closes cleanly it returns the number of jobs of all its sessions.
pub run_finishes :
    (rounds : List Round) (jobs result jitter : ℕ) (rest : List Round)
    → All Persists rounds
    → (run (rounds ++ last_session jobs result jitter ∷ rest)).1 ≡ finished (all_jobs rounds + jobs)
unfolding run
run_finishes rounds jobs result jitter rest h =
    run_loop_finishes 0 0 rounds jobs result jitter rest h ∙ ap finished (omega arith)

abbrev pub failed_start : Round
failed_start = record { start = start_fails; jitter = 0; sleep_cancelled = false }

failures_slept :
    (n processed count : ℕ)
    → count < 5
    → slept (run_loop processed count (replicate n failed_start)).0 + 10 * count
      ≡ 100 * ((count + n) / 5) + 10 * ((count + n) % 5)
unfolding run_loop round
failures_slept zero processed count h = omega arith
failures_slept (suc n) processed count h = elim (dec_lt count 4) [
  | yes few ↦
      let below : leb 5 (count + 1) ≡ false = ground arith in
      rw below (omega (arith, failures_slept n (processed + 0) (count + 1) (omega arith)))
  | no most ↦
      let full : leb 5 (count + 1) ≡ true = ground arith in
      rw full (omega (arith, failures_slept n (processed + 0) 0 (omega arith)))
]

failures_run :
    (n processed count : ℕ)
    → (run_loop processed count (replicate n failed_start)).1 ≡ still_running
unfolding run_loop round
failures_run zero processed count = refl
failures_run (suc n) processed count = elim (Bool-cases (leb 5 (count + 1))) [
  | inl full ↦ rw full (failures_run n (processed + 0) 0)
  | inr below ↦ rw below (failures_run n (processed + 0) (count + 1))
]

-- The worker never gives up on a browser that does not start: n failed starts in a row cost ten
-- seconds each, but every fifth sixty, and the worker is still running after them.
pub start_failures :
    (n : ℕ)
    → (slept (run (replicate n failed_start)).0 ≡ 100 * (n / 5) + 10 * (n % 5))
      × ((run (replicate n failed_start)).1 ≡ still_running)
unfolding run
start_failures n = (omega (arith, failures_slept n 0 0 (omega arith)), failures_run n 0 0)

-- An exception of the browser's exit counts as a failed start, whatever the session did: after an
-- exhausted queue, a cancellation, a cooldown, a restart or an error alike the worker goes round
-- again with one failed start on its account.
pub exit_failure_restarts :
    (count jobs jitter : ℕ) (inner : Inner)
    → (round count
        (record { start = starts jobs inner true; jitter = jitter; sleep_cancelled = false })).1
      ≡ again 1
unfolding round
exit_failure_restarts count jobs jitter inner = ground arith
