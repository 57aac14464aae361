-- ===== src/Crawl/Quiet.antt =====
-- scripts/scrape_player_info.py, run_buffered: what it leaves of the recovery of an engine that is gone.
use sport_crawl.Prelude.{
  ℕ, ◌+◌, Bool, true, false, Option, none, some, List, [], ◌∷◌, ◌++◌, ◌≡◌, refl, inl, inr,
  Bool-cases, arith, leb,
}
use sport_crawl.Gate.State.{Event, cancel, act, System, cancel_recovery, Task, is_done}
use sport_crawl.Gate.State
use sport_crawl.Gate.Reopening.{is_live_option}
use sport_crawl.Worker.Loop.{
  Inner, cooldown_required, cancelled, unexpected, restart, exhausted, enter, exit, label, sleep,
  Next, returns, cancels, again, max_restarts, WorkerResult, go_on,
}
use sport_crawl.Crawl.Buffered.{
  Session, warmup_fails, warmup_cancelled, warm, BufferedStart, build_fails, build_cancelled,
  builds, SessionRound, Step, did, calls, signalled, session_calls, build_failure, session_end,
  begin_session, sessions, run_buffered, inner_of, jobs_of,
}

-- Whenever the steps sleep, no recovery of the gate can still probe or open it.
abbrev pub IsQuiet : List Step → System → Type 0
IsQuiet [] s = Unit
IsQuiet (calls e ∷ rest) s = IsQuiet rest (act e s)
IsQuiet (did (sleep n) ∷ rest) s = (is_live_option s.gate.recovery_task ≡ false) × IsQuiet rest s
IsQuiet (did _ ∷ rest) s = IsQuiet rest s

abbrev Quiet : List Step → Type 0
Quiet steps = (s : System) → IsQuiet steps s

Quiet-append : (xs ys : List Step) → Quiet xs → Quiet ys → Quiet (xs ++ ys)
Quiet-append xs ys qx qy s = go xs s (qx s)
  where
    go : (xs : List Step) (s : System) → IsQuiet xs s → IsQuiet (xs ++ ys) s
    go [] s q = qy s
    go (calls e ∷ rest) s q = go rest (act e s) q
    go (did (sleep n) ∷ rest) s q = (q.0, go rest s q.1)
    go (did enter ∷ rest) s q = go rest s q
    go (did exit ∷ rest) s q = go rest s q
    go (did (label l) ∷ rest) s q = go rest s q

cancelled_dead : (t : Option Task) → is_live_option (State.cancelled t) ≡ false
cancelled_dead none = refl
cancelled_dead (some t) = ground arith

cancel-dead : (s : System) → is_live_option (act cancel s).gate.recovery_task ≡ false
unfolding act cancel_recovery
cancel-dead s = cancelled_dead s.gate.recovery_task

signalled-Quiet : (signals : List (ℕ × Bool)) → Quiet (signalled true signals)
signalled-Quiet [] s = tt
signalled-Quiet (x ∷ rest) s = signalled-Quiet rest (act _ s)

session_calls-Quiet : (session : Session) → Quiet (session_calls true session)
session_calls-Quiet warmup_fails s = tt
session_calls-Quiet warmup_cancelled s = tt
session_calls-Quiet (warm signals jobs inner) s = signalled-Quiet signals (act _ s)

build_failure-Quiet : (count : ℕ) (c : Bool) → Quiet (build_failure true count c).0
build_failure-Quiet count c s = elim (Bool-cases (leb max_restarts (count + 1))) [
  | inl full ↦ rw full (cancel-dead s, tt)
  | inr below ↦ rw below (cancel-dead s, tt)
]

session_end-Quiet :
    (inner : Inner) (exit_raises : Bool) (jitter : ℕ) (c : Bool)
    → Quiet (session_end true inner exit_raises jitter c).0
session_end-Quiet unexpected true jitter c s =
    (cancel-dead s, build_failure-Quiet 0 false (act cancel s))
session_end-Quiet unexpected false jitter c s = (cancel-dead s, tt)
session_end-Quiet cancelled true jitter c s = build_failure-Quiet 0 c s
session_end-Quiet cancelled false jitter c s = tt
session_end-Quiet (exhausted n) true jitter c s = build_failure-Quiet 0 c s
session_end-Quiet (exhausted n) false jitter c s = tt
session_end-Quiet restart true jitter c s = build_failure-Quiet 0 c s
session_end-Quiet restart false jitter c s = tt
session_end-Quiet cooldown_required true jitter c s = build_failure-Quiet 0 c s
session_end-Quiet cooldown_required false jitter true s = (cancel-dead s, tt)
session_end-Quiet cooldown_required false jitter false s = (cancel-dead s, (cancel-dead s, tt))

begin_session-Quiet :
    (start : BufferedStart) (count jitter : ℕ) (c : Bool)
    → Quiet (begin_session true start count jitter c).0
begin_session-Quiet build_fails count jitter c s = build_failure-Quiet count c s
begin_session-Quiet build_cancelled count jitter c s = tt
begin_session-Quiet (builds session exit_raises) count jitter c s =
    Quiet-append (session_calls true session) _ (session_calls-Quiet session)
      (session_end-Quiet (inner_of session) exit_raises jitter c) s

sessions-Quiet :
    (rounds : List SessionRound) (processed count : ℕ)
    → Quiet (sessions true processed count rounds).0
unfolding sessions
sessions-Quiet [] processed count s = tt
sessions-Quiet (r ∷ rest) processed count s =
    let (steps, next) = begin_session true r.start count r.jitter r.sleep_cancelled in
    let total = processed + jobs_of r.start in
    Quiet-append steps _ (begin_session-Quiet r.start count r.jitter r.sleep_cancelled)
      (go_on-Quiet next total (λ k. sessions true total k rest) (λ k. sessions-Quiet rest total k))
      s
  where
    go_on-Quiet :
        (next : Next) (total : ℕ) (loop : ℕ → List Step × WorkerResult)
        → ((k : ℕ) → Quiet (loop k).0)
        → Quiet (go_on next total loop).0
    go_on-Quiet returns total loop q s = tt
    go_on-Quiet cancels total loop q s = tt
    go_on-Quiet (again k) total loop q s = q k s

-- Whatever its sessions meet and whatever the gate was told before, a worker with a gate never
-- sleeps, after a failed start, an error or a cooldown, while a recovery of the gate is alive that
-- could probe an engine that is gone, as long as nobody else calls the gate.
pub run_buffered-IsQuiet :
    (rounds : List SessionRound) (s : System) → IsQuiet (run_buffered true rounds).0 s
unfolding run_buffered
run_buffered-IsQuiet rounds s = sessions-Quiet rounds 0 0 s
