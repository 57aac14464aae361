-- ===== src/Crawl/Mirror.antt =====
-- scripts/scrape_player_info.py, run_buffered, beside core/application/base_worker.py, run.
use sport_crawl.Prelude.{
  ℕ, ◌+◌, Bool, true, false, List, [], ◌∷◌, ◌++◌, map, ◌≡◌, refl, ap, ◌∙◌, inl, inr, Bool-cases,
  leb,
}
use sport_crawl.Worker.Loop.{
  Inner, cooldown_required, cancelled, unexpected, restart, exhausted, Start, start_fails,
  start_cancelled, starts, Round, Action, enter, Next, returns, cancels, again, max_restarts,
  WorkerResult, go_on, start_failure, browser_up, begin, round, session_jobs, run_loop, run,
}
use sport_crawl.Crawl.Buffered.{
  Session, warmup_fails, warmup_cancelled, warm, BufferedStart, build_fails, build_cancelled,
  builds, SessionRound, Step, did, calls, signalled, session_calls, build_failure, session_end,
  begin_session, sessions, run_buffered, inner_of, jobs_of,
}

-- The steps without the calls of the gate.
abbrev pub own_actions : List Step → List Action
own_actions [] = []
own_actions (did a ∷ rest) = a ∷ own_actions rest
own_actions (calls e ∷ rest) = own_actions rest

abbrev pub to_start : BufferedStart → Start
to_start build_fails = start_fails
to_start build_cancelled = start_cancelled
to_start (builds session exit_raises) =
    starts (jobs_of (builds session exit_raises)) (inner_of session) exit_raises

abbrev pub to_round : SessionRound → Round
to_round r = record {
  start = to_start r.start;
  jitter = r.jitter;
  sleep_cancelled = r.sleep_cancelled;
}

own_actions-append : (xs ys : List Step) → own_actions (xs ++ ys) ≡ own_actions xs ++ own_actions ys
own_actions-append [] ys = refl
own_actions-append (did a ∷ rest) ys = ap (λ l. a ∷ l) (own_actions-append rest ys)
own_actions-append (calls e ∷ rest) ys = own_actions-append rest ys

abbrev plain : {B : Type 0} → List Step × B → List Action × B
plain p = (own_actions p.0, p.1)

session_calls-own_actions :
    (has_gate : Bool) (session : Session) → own_actions (session_calls has_gate session) ≡ []
session_calls-own_actions has_gate warmup_fails = refl
session_calls-own_actions has_gate warmup_cancelled = refl
session_calls-own_actions true (warm signals jobs inner) = go signals
  where
    go : (signals : List (ℕ × Bool)) → own_actions (signalled true signals) ≡ []
    go [] = refl
    go (s ∷ rest) = go rest
session_calls-own_actions false (warm signals jobs inner) = go signals
  where
    go : (signals : List (ℕ × Bool)) → own_actions (signalled false signals) ≡ []
    go [] = refl
    go (s ∷ rest) = go rest

build_failure-eq :
    (has_gate : Bool) (count : ℕ) (c : Bool)
    → plain (build_failure has_gate count c) ≡ start_failure count c
build_failure-eq true count c = elim (Bool-cases (leb max_restarts (count + 1))) [
  | inl full ↦ rw full refl
  | inr below ↦ rw below refl
]
build_failure-eq false count c = elim (Bool-cases (leb max_restarts (count + 1))) [
  | inl full ↦ rw full refl
  | inr below ↦ rw below refl
]

session_end-eq :
    (has_gate : Bool) (inner : Inner) (exit_raises : Bool) (jitter : ℕ) (c : Bool)
    → plain (session_end has_gate inner exit_raises jitter c)
      ≡ browser_up inner exit_raises jitter c
session_end-eq true unexpected true jitter c = refl
session_end-eq false unexpected true jitter c = refl
session_end-eq true unexpected false jitter c = refl
session_end-eq false unexpected false jitter c = refl
session_end-eq true cancelled true jitter c = refl
session_end-eq false cancelled true jitter c = refl
session_end-eq has_gate cancelled false jitter c = refl
session_end-eq true (exhausted n) true jitter c = refl
session_end-eq false (exhausted n) true jitter c = refl
session_end-eq has_gate (exhausted n) false jitter c = refl
session_end-eq true restart true jitter c = refl
session_end-eq false restart true jitter c = refl
session_end-eq has_gate restart false jitter c = refl
session_end-eq true cooldown_required true jitter c = refl
session_end-eq false cooldown_required true jitter c = refl
session_end-eq true cooldown_required false jitter true = refl
session_end-eq true cooldown_required false jitter false = refl
session_end-eq false cooldown_required false jitter true = refl
session_end-eq false cooldown_required false jitter false = refl

session_jobs-eq : (start : BufferedStart) → session_jobs (to_start start) ≡ jobs_of start
session_jobs-eq build_fails = refl
session_jobs-eq build_cancelled = refl
session_jobs-eq (builds warmup_fails exit_raises) = refl
session_jobs-eq (builds warmup_cancelled exit_raises) = refl
session_jobs-eq (builds (warm signals jobs inner) exit_raises) = refl

begin_session-eq :
    (has_gate : Bool) (start : BufferedStart) (count jitter : ℕ) (c : Bool)
    → plain (begin_session has_gate start count jitter c) ≡ begin (to_start start) count jitter c
begin_session-eq has_gate build_fails count jitter c = build_failure-eq has_gate count c
begin_session-eq has_gate build_cancelled count jitter c = refl
begin_session-eq has_gate (builds session exit_raises) count jitter c =
    let (steps, next) = session_end has_gate (inner_of session) exit_raises jitter c in
    ap (λ l. (enter ∷ l, next))
      (own_actions-append (session_calls has_gate session) steps
        ∙ ap (λ l. l ++ own_actions steps) (session_calls-own_actions has_gate session))
    ∙ ap (λ (p : List Action × Next). (enter ∷ p.0, p.1))
        (session_end-eq has_gate (inner_of session) exit_raises jitter c)

go_on-eq :
    (next : Next) (total : ℕ) (buffered : ℕ → List Step × WorkerResult)
    (direct : ℕ → List Action × WorkerResult)
    → ((k : ℕ) → plain (buffered k) ≡ direct k)
    → plain (go_on next total buffered) ≡ go_on next total direct
go_on-eq returns total buffered direct e = refl
go_on-eq cancels total buffered direct e = refl
go_on-eq (again k) total buffered direct e = e k

sessions-eq :
    (has_gate : Bool) (rounds : List SessionRound) (processed count : ℕ)
    → plain (sessions has_gate processed count rounds)
      ≡ run_loop processed count (map to_round rounds)
unfolding sessions run_loop round
sessions-eq has_gate [] processed count = refl
sessions-eq has_gate (r ∷ rest) processed count =
    let (steps, next) = begin_session has_gate r.start count r.jitter r.sleep_cancelled in
    let total = processed + jobs_of r.start in
    let buffered = λ (k : ℕ). sessions has_gate total k rest in
    let direct = λ (k : ℕ). run_loop total k (map to_round rest) in
    let one = begin_session-eq has_gate r.start count r.jitter r.sleep_cancelled in
    let same = session_jobs-eq r.start in
    rw same (
      ap (λ l. (l, (go_on next total buffered).1))
        (own_actions-append steps (go_on next total buffered).0)
      ∙ ap (λ (p : List Action × WorkerResult). (own_actions steps ++ p.0, p.1))
          (go_on-eq next total buffered direct (λ k. sessions-eq has_gate rest total k))
      ∙ ap
          (λ (p : List Action × Next).
            (p.0 ++ (go_on p.1 total direct).0, (go_on p.1 total direct).1))
          one)

-- But for its calls of the gate, a buffered worker does what BaseWorker.run does: it enters and exits
-- browsers, sets labels, sleeps and ends alike, whatever its sessions meet, with a gate and without.
pub run_buffered-run :
    (has_gate : Bool) (rounds : List SessionRound)
    → (own_actions (run_buffered has_gate rounds).0, (run_buffered has_gate rounds).1)
      ≡ run (map to_round rounds)
unfolding run_buffered run
run_buffered-run has_gate rounds = sessions-eq has_gate rounds 0 0
