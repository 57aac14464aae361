-- ===== src/Gate/Reopening.antt =====
-- Who may reopen the gate, under every order of calls and wake-ups.
use sport_crawl.Prelude.{
  ℕ, zero, suc, String, Bool, true, false, Option, none, some, List, [], ◌∷◌, ◌≡◌, ◌⊎◌, refl, arith,
  ◌&&◌, not, All,
}
use sport_crawl.Gate.State.{
  Phase, created, cooling, probing, backing, finished, Task, is_done, RateLimitGate, Answer,
  is_ready, run_recovery, System, Event, signal, wake, wake_orphan, cancel, engine_ready, stop, act,
  run, signal_rate_limit, cancel_recovery, mark_engine_ready, shutdown, new_gate, is_running,
  wake_nth, wake_current,
}

-- A recovery that can still open the gate: it is neither done nor being cancelled.
abbrev pub is_live : Task → Bool
is_live t = not (is_done t) && not t.cancelling

abbrev pub is_live_option : Option Task → Bool
is_live_option none = false
is_live_option (some t) = is_live t

pub record IsSound (s : System) : Type 0 where
  pub no_live_orphan : All (λ t. is_live t ≡ false) s.orphans
  pub open_idle : s.gate.is_open ≡ true → is_live_option s.gate.recovery_task ≡ false

dead_orphan :
    (k : ℕ) (answer : Answer) (orphans : List Task) (g : RateLimitGate)
    → All (λ t. is_live t ≡ false) orphans
    → All (λ t. is_live t ≡ false) (wake_nth k answer orphans g).0
      × ((wake_nth k answer orphans g).1.is_open ≡ g.is_open)
      × ((wake_nth k answer orphans g).1.recovery_task ≡ g.recovery_task)
unfolding run_recovery
dead_orphan k answer [] g h = (tt, refl, refl)
dead_orphan zero answer (t ∷ rest) g h = ((ground arith, h.1), ground arith, ground arith)
dead_orphan (suc k) answer (t ∷ rest) g h =
    let (a, b, c) = dead_orphan k answer rest g h.1 in ((h.0, a), b, c)

pub act-IsSound : (e : Event) (s : System) → IsSound s → IsSound (act e s)
unfolding act
act-IsSound (signal now reason has_probe) s h = unfold signal_rate_limit in ground arith
act-IsSound (wake answer) s h = unfold run_recovery in ground arith
act-IsSound (wake_orphan k answer) s h =
    ground (arith, dead_orphan k answer s.orphans s.gate h.no_live_orphan)
act-IsSound cancel s h = unfold cancel_recovery in ground arith
act-IsSound engine_ready s h = unfold mark_engine_ready in ground arith
act-IsSound stop s h = unfold shutdown in ground arith

run-IsSound : (events : List Event) (s : System) → IsSound s → IsSound (run events s)
unfolding run
run-IsSound [] s h = h
run-IsSound (e ∷ rest) s h = run-IsSound rest (act e s) (act-IsSound e s h)

abbrev pub new_system : ℕ → ℕ → ℕ → System
new_system cooldown timeout attempts = record {
  gate = new_gate cooldown timeout attempts;
  orphans = [];
}

-- Whatever methods are called and whichever tasks wake, in any order, at most one recovery can still
-- open the gate: every task that the gate dropped is done or being cancelled, and while the gate is
-- open its own task is too.
pub new_gate-IsSound :
    (cooldown timeout attempts : ℕ) (events : List Event)
    → IsSound (run events (new_system cooldown timeout attempts))
new_gate-IsSound cooldown timeout attempts events =
    run-IsSound events (new_system cooldown timeout attempts)
      (record { no_live_orphan = tt; open_idle = λ h. refl })

-- What lets the current recovery open the gate: the cooldown is over and there is no probe to make,
-- or its probe answers that the browser is ready.
abbrev pub OpensWith : Answer → Phase → Bool → Type 0
OpensWith answer cooling has_probe = has_probe ≡ false
OpensWith answer (probing n) has_probe = is_ready answer ≡ true
OpensWith answer _ has_probe = ⊥

abbrev pub OpensBy : Event → Option Task → Type 0
OpensBy engine_ready task = Unit
OpensBy (wake answer) (some t) = (t.cancelling ≡ false) × OpensWith answer t.phase t.has_probe
OpensBy _ task = ⊥

wake_opens :
    (answer : Answer) (phase : Phase) (g : RateLimitGate) (has_probe cancelling : Bool)
    → g.is_open ≡ false
    → (run_recovery answer
        (record { phase = phase; has_probe = has_probe; cancelling = cancelling })
        g).1.is_open
      ≡ true
    → (cancelling ≡ false) × OpensWith answer phase has_probe
unfolding run_recovery
wake_opens answer created g has_probe cancelling shut opened = absurd (ground arith)
wake_opens answer cooling g has_probe cancelling shut opened = ground arith
wake_opens answer (probing n) g has_probe cancelling shut opened = ground arith
wake_opens answer (backing n) g has_probe cancelling shut opened = absurd (ground arith)
wake_opens answer finished g has_probe cancelling shut opened = absurd (ground arith)

wake_current_opens :
    (answer : Answer) (task : Option Task) (g : RateLimitGate)
    → g.is_open ≡ false
    → (wake_current answer task g).is_open ≡ true
    → OpensBy (wake answer) task
wake_current_opens answer none g shut opened = absurd (ground arith)
wake_current_opens answer (some t) g shut opened =
    wake_opens answer t.phase g t.has_probe t.cancelling shut opened

-- A closed gate is opened by one event only: a new engine reports ready, or the current recovery,
-- which nobody has cancelled, wakes from its cooldown with no probe to make or from a probe that
-- answers ready. No signal, no cancelled task and no dropped task opens it.
pub act_opens :
    (e : Event) (s : System)
    → IsSound s
    → s.gate.is_open ≡ false
    → (act e s).gate.is_open ≡ true
    → OpensBy e s.gate.recovery_task
act_opens (signal now reason has_probe) s h shut opened =
    unfold act signal_rate_limit in absurd (ground arith)
act_opens (wake answer) s h shut opened =
    unfold act in wake_current_opens answer s.gate.recovery_task s.gate shut opened
act_opens (wake_orphan k answer) s h shut opened =
    unfold act in absurd (ground (arith, dead_orphan k answer s.orphans s.gate h.no_live_orphan))
act_opens cancel s h shut opened = unfold act cancel_recovery in absurd (ground arith)
act_opens engine_ready s h shut opened = tt
act_opens stop s h shut opened = unfold act shutdown in absurd (ground arith)

-- A signal that a running recovery makes redundant changes nothing, and any other signal closes the
-- gate with its reason and time and starts a recovery that nobody has cancelled.
pub signal_rate_limit_closes :
    (now : ℕ) (reason : String) (has_probe : Bool) (s : System)
    → let s' = signal_rate_limit now reason has_probe s in
      (s'.gate.is_open ≡ false)
      × ((s' ≡ s) × (is_running s.gate.recovery_task ≡ true)
          ⊎ (s'.gate.close_reason ≡ some reason)
            × (s'.gate.close_time ≡ some now)
            × (is_live_option s'.gate.recovery_task ≡ true))
unfolding signal_rate_limit
signal_rate_limit_closes now reason has_probe s = ground arith
