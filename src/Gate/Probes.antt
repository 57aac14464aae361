-- ===== src/Gate/Probes.antt =====
-- How a recovery that nobody disturbs ends.
use sport_crawl.Prelude.{
  ℕ, suc, ◌+◌, ◌≤◌, String, Bool, true, false, some, List, [], ◌∷◌, ◌≡◌, refl, ap, arith, ◌||◌,
  if◌then◌else◌, Bool-cases, inl, inr, length, leb, ◌∙◌,
}
use sport_crawl.Gate.State.{
  Phase, probing, finished, Answer, elapsed, is_ready, run_recovery, attempt, System, Event, signal,
  wake, act, run, is_running, signal_rate_limit, dropped,
}

abbrev pub any_ready : List Answer → Bool
any_ready [] = false
any_ready (a ∷ rest) = is_ready a || any_ready rest

-- The wake-ups of a recovery that gets these answers, with the backoff after each.
abbrev pub answered : List Answer → List Event
answered [] = []
answered (a ∷ rest) = wake a ∷ wake elapsed ∷ answered rest

-- A system whose current recovery, with a probe and not cancelled, stands at a phase.
abbrev at : System → Phase → Bool → System
at s phase is_open = record s {
  gate = record s.gate {
    is_open = is_open;
    recovery_task = some (record { phase = phase; has_probe = true; cancelling = false });
  };
}

finished_stays :
    (answers : List Answer) (s : System) (is_open : Bool)
    → run (answered answers) (at s finished is_open) ≡ at s finished is_open
unfolding run act run_recovery
finished_stays [] s is_open = refl
finished_stays (a ∷ rest) s true = finished_stays rest s true
finished_stays (a ∷ rest) s false = finished_stays rest s false

one_answer :
    (a : Answer) (n : ℕ) (s : System)
    → n ≤ s.gate.max_probe_attempts
    → act (wake elapsed) (act (wake a) (at s (probing n) false))
      ≡ (if is_ready a then at s finished true else at s (attempt (n + 1) s.gate) false)
unfolding act run_recovery
one_answer a n s h = ground arith

probes_end :
    (answers : List Answer) (n : ℕ) (s : System)
    → n + length answers ≡ suc s.gate.max_probe_attempts
    → run (answered answers) (at s (attempt n s.gate) false) ≡ at s finished (any_ready answers)
unfolding run
probes_end [] n s h = let over : leb n s.gate.max_probe_attempts ≡ false = ground arith in rw over
probes_end (a ∷ rest) n s h =
    let more : leb n s.gate.max_probe_attempts ≡ true = ground arith in
    rw more (
      ap (run (answered rest)) (one_answer a n s (omega arith)) ∙ (elim (Bool-cases (is_ready a)) [
        | inl yes' ↦ rw yes' (finished_stays rest s true)
        | inr no' ↦ rw no' (probes_end rest (n + 1) s (omega arith))
      ]))

-- The gate that a signal closed, before its recovery is told apart.
abbrev shut : ℕ → String → System → System
shut now reason s = record {
  gate = record s.gate { close_reason = some reason; close_time = some now };
  orphans = dropped s.gate.recovery_task s.orphans;
}

signal_cools :
    (now : ℕ) (reason : String) (s : System)
    → is_running s.gate.recovery_task ≡ false
    → act (wake elapsed) (act (wake elapsed) (act (signal now reason true) s))
      ≡ at (shut now reason s) (attempt 1 s.gate) false
unfolding act run_recovery signal_rate_limit
signal_cools now reason s idle = ground arith

-- A signal that starts a recovery with a probe, left alone through its cooldown, its
-- max_probe_attempts probes and the backoffs between them, ends: the recovery is done, and the gate
-- is open exactly if one of those probes answered ready; a probe that times out or raises counts as
-- not ready.
pub recovery_ends :
    (now : ℕ) (reason : String) (answers : List Answer) (s : System)
    → is_running s.gate.recovery_task ≡ false
    → length answers ≡ s.gate.max_probe_attempts
    → let s' = run (signal now reason true ∷ wake elapsed ∷ wake elapsed ∷ answered answers) s in
      (s'.gate.is_open ≡ any_ready answers) × (is_running s'.gate.recovery_task ≡ false)
unfolding run
recovery_ends now reason answers s idle all =
    let e =
      ap (run (answered answers)) (signal_cools now reason s idle)
      ∙ probes_end answers 1 (shut now reason s) (omega arith) in
    (ap (λ x. x.gate.is_open) e, ap (λ x. is_running x.gate.recovery_task) e)
