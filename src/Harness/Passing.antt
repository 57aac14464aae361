-- ===== src/Harness/Passing.antt =====
-- cli/smoke_clearance_real.py, RealClearanceHarness.run: what a gate leaves of a run, and how the parts
-- of a gate do.
use sport_crawl.Prelude.{
  ℕ, suc, ◌≤◌, ◌<◌, Bool, true, false, some, [], ◌∷◌, ◌++◌, ◌≡◌, ◌≢◌, refl, arith, All, if_ind,
}
use sport_crawl.Harness.Seams.{
  GateStatus, pass, blocked, Gate, provider_readiness, loopback_assertion, ci_check,
  token_source_class, redaction_self_test, target_validation, work_server_startup,
  work_server_health, auth_failure_probe, browser_start, cdp_ready, extension_config_inject,
  sw_keepalive_confirmed, target_navigation, clearance_observed, expires_at_guard, post_clearance,
  final_redaction_scan, Results, Evidence, HarnessReport, Failure, is_exception, Answer, ok, raises,
  Progress, Outcome, go, returns, propagates, passed, stopped, require, on, catching,
}
use sport_crawl.Harness.Run.{and_next}

-- The order of the gates.
abbrev pub position : Gate → ℕ
position provider_readiness = 0
position loopback_assertion = 1
position ci_check = 2
position token_source_class = 3
position redaction_self_test = 4
position target_validation = 5
position work_server_startup = 6
position work_server_health = 7
position auth_failure_probe = 8
position browser_start = 9
position cdp_ready = 10
position extension_config_inject = 11
position sw_keepalive_confirmed = 12
position target_navigation = 13
position clearance_observed = 14
position expires_at_guard = 15
position post_clearance = 16
position final_redaction_scan = 17

-- Passes in the order of the gates, from a position on.
abbrev pub IsPassed : ℕ → Results → Type 0
IsPassed k [] = Unit
IsPassed k ((g, status) ∷ rest) =
    (k ≤ position g) × (status ≡ pass) × IsPassed (suc (position g)) rest

-- All of them below a position.
abbrev pub IsBelow : ℕ → Results → Type 0
IsBelow k = All (λ (r : Gate × GateStatus). position r.0 < k)

-- The gates that passed before a gate stands.
abbrev pub IsAt : ℕ → Results → Type 0
IsAt k results = IsPassed 0 results × IsBelow k results

-- A report whose last gate did not pass, and is named by error_gate with the status of the report.
pub record IsStopped (r : HarnessReport) : Type 0 where
  pub gate : Gate
  pub before : Results
  pub passes : IsAt (position gate) before
  pub results : r.gate_results ≡ before ++ (gate, r.status) ∷ []
  pub named : r.error_gate ≡ some gate
  pub not_passed : r.status ≢ pass

-- What holds of a gate's end: of the progress, or of the report.
abbrev pub Ends : (Progress → Type 0) → Outcome → Type 0
Ends Q (go t) = Q t
Ends Q (returns report calls) = IsStopped report
Ends Q (propagates e calls) = Unit

-- A gate is passed, with a further fact, or ends the run.
abbrev pub Passes : ℕ → Type 0 → Outcome → Type 0
Passes k C = Ends (λ t. IsAt k t.gate_results × C)

pub Ends-and_next :
    (Q R : Progress → Type 0) (o : Outcome) (next : Progress → Outcome)
    → Ends Q o
    → ((t : Progress) → Q t → Ends R (next t))
    → Ends R (and_next o next)
Ends-and_next Q R (go t) next h step = step t h
Ends-and_next Q R (returns report calls) next h step = h
Ends-and_next Q R (propagates e calls) next h step = h

IsPassed-append :
    (k : ℕ) (g : Gate) (results : Results)
    → k ≤ position g
    → IsPassed k results
    → IsBelow (position g) results
    → IsPassed k (results ++ (g, pass) ∷ [])
IsPassed-append k g [] le h below = (le, refl, tt)
IsPassed-append k g ((f, status) ∷ rest) le h below =
    (h.0, h.1, IsPassed-append (suc (position f)) g rest (omega (arith, below.0)) h.2 below.1)

IsBelow-append :
    (k m : ℕ) (g : Gate) (results : Results)
    → k ≤ m
    → position g < m
    → IsBelow k results
    → IsBelow m (results ++ (g, pass) ∷ [])
IsBelow-append k m g [] le lt h = (lt, tt)
IsBelow-append k m g (r ∷ rest) le lt h =
    (omega (arith, h.0, le), IsBelow-append k m g rest le lt h.1)

pub IsAt-le : (k m : ℕ) (results : Results) → k ≤ m → IsAt k results → IsAt m results
IsAt-le k m results le h = (h.0, below results h.1)
  where
    below : (results : Results) → IsBelow k results → IsBelow m results
    below [] b = b
    below (r ∷ rest) b = (omega (arith, le, b.0), below rest b.1)

module _ (g : Gate) (t : Progress) (h : IsAt (position g) t.gate_results) where
  -- A progress beyond the gate, with a further fact.
  pub passed-Ends : (C : Type 0) → C → Passes (suc (position g)) C (passed g t)
  passed-Ends C c = (
    (
      IsPassed-append 0 g t.gate_results (omega arith) h.0 h.1,
      IsBelow-append (position g) (suc (position g)) g t.gate_results (omega arith) (omega arith)
          h.1,
    ),
    c,
  )

  pub stopped-Ends :
      (k : ℕ) (C : Type 0) (status : GateStatus) (evidence : Evidence)
      → status ≢ pass
      → Passes k C (stopped status g evidence t)
  stopped-Ends k C status evidence ne = record {
    gate = g;
    before = t.gate_results;
    passes = h;
    results = refl;
    named = refl;
    not_passed = ne;
  }

  pub require-Ends : (b : Bool) → Passes (suc (position g)) (b ≡ true) (require b g t)
  require-Ends true = passed-Ends (true ≡ true) refl
  require-Ends false = stopped-Ends (suc (position g)) (false ≡ true) blocked t.evidence cc

module _ {ℓ} {A : Type ℓ} (Q : Progress → Type 0) (t : Progress) (next : A → Outcome) where
  pub on-Ends : (a : Answer A) → ((x : A) → a ≡ ok x → Ends Q (next x)) → Ends Q (on a t next)
  on-Ends (ok x) step = step x refl
  on-Ends (raises e) step = tt

  pub catching-Ends :
      (a : Answer A) (handler : Failure → Outcome)
      → ((x : A) → a ≡ ok x → Ends Q (next x))
      → ((e : Failure) → Ends Q (handler e))
      → Ends Q (catching a t next handler)
  catching-Ends (ok x) handler step caught = step x refl
  catching-Ends (raises e) handler step caught =
      if_ind (Ends Q) (is_exception e) (λ _. caught e) (λ _. tt)

-- The fact that a test gives, in place of the test.
pub facts :
    (k : ℕ) {P : Type 0} (C : Type 0) → (P → C) → (o : Outcome) → Passes k P o → Passes k C o
facts k C f (go t) h = (h.0, f h.1)
facts k C f (returns report calls) h = h
facts k C f (propagates e calls) h = h

-- A gate that requires an answer to be `true`.
pub answered :
    (g : Gate) (t : Progress)
    → IsAt (position g) t.gate_results
    → (b : Bool) (a : Answer Bool) → a ≡ ok b
    → Passes (suc (position g)) (a ≡ ok true) (require b g t)
answered g t h true a e = passed-Ends g t h (a ≡ ok true) e
answered g t h false a e = stopped-Ends g t h (suc (position g)) (a ≡ ok true) blocked t.evidence cc
