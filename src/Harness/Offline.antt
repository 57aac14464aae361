-- ===== src/Harness/Offline.antt =====
-- cli/smoke_clearance_real.py, RealClearanceHarness.run: the calls before the target is validated.
use sport_crawl.Prelude.{
  ℕ, Bool, true, false, String, List, [], ◌∷◌, ◌≡◌, refl, All, All-append, if_ind, str_eq,
}
use sport_crawl.Harness.Seams.{
  Gate, all_pass, ci_blocked, CiCheckResult, ValidationResult, valid, target_blocked, Failure,
  is_exception, Answer, ok, raises, World, Call, asks_ready, asks_ci, validates, stops_browser,
  stops_server, Progress, Outcome, go, returns, propagates, called, provider_readiness, require, on,
}
use sport_crawl.Harness.Gates.{
  validate_token_source_class, self_test_passed, decide_ci, decide_token, decide_target,
  gate_provider_readiness, gate_loopback, gate_ci_check, gate_token_source,
  gate_redaction_self_test, gate_target_validation,
}
use sport_crawl.Harness.Run.{
  and_next, run_gates, gates, Ending, reported, raised, conclude, also, replaced, cleanup_call,
  cleanup, run,
}
use sport_crawl.Harness.Passing.{IsAt, Passes}
use sport_crawl.Harness.Conditions.{
  AreReady, HasToken, IsTargetValid, provider_readiness-Passes, loopback-Passes, ci_check-Passes,
  token_source-Passes, redaction_self_test-Passes, target_validation-Passes,
}
use sport_crawl.Harness.Reports.{calls_of}

-- The calls that start no server and no browser, and send nothing to one.
abbrev pub is_offline : Call → Bool
is_offline asks_ready = true
is_offline asks_ci = true
is_offline validates = true
is_offline stops_browser = true
is_offline stops_server = true
is_offline _ = false

abbrev pub IsOffline : List Call → Type 0
IsOffline = All (λ c. is_offline c ≡ true)

-- The gates up to the validation of the target pass.
abbrev pub IsPermitted : World → Type 0
IsPermitted w =
    ((w.target_ready ≡ ok true) × (w.browser_params_ready ≡ ok true) × (w.token_ready ≡ ok true))
    × (str_eq w.resolved_host "127.0.0.1" ≡ true)
    × (w.check_once ≡ ok all_pass)
    × ((label : String) × (w.token_source ≡ ok label) × (validate_token_source_class label ≡ true))
    × ((label : String) × (w.target_source ≡ ok label) × (w.validate label ≡ ok valid))

abbrev Quiet : Outcome → Type 0
Quiet (go t) = IsOffline t.calls
Quiet (returns report calls) = IsOffline calls
Quiet (propagates e calls) = IsOffline calls

require-Quiet : (b : Bool) (g : Gate) (t : Progress) → IsOffline t.calls → Quiet (require b g t)
require-Quiet true g t h = h
require-Quiet false g t h = h

on-Quiet {ℓ} :
    {A : Type ℓ} (a : Answer A) (t : Progress) (next : A → Outcome)
    → IsOffline t.calls
    → ((x : A) → Quiet (next x))
    → Quiet (on a t next)
on-Quiet (ok x) t next h step = step x
on-Quiet (raises e) t next h step = h

called-IsOffline :
    (c : Call) (t : Progress)
    → is_offline c ≡ true
    → IsOffline t.calls
    → IsOffline (called c t).calls
called-IsOffline c t e h = All-append (λ d. is_offline d ≡ true) t.calls (c ∷ []) h (e, tt)

module _ (w : World) (t : Progress) (h : IsOffline t.calls) where
  provider_readiness-Quiet : Quiet (gate_provider_readiness w t)
  unfolding gate_provider_readiness
  provider_readiness-Quiet =
      let t' = called asks_ready t in
      let asked = called-IsOffline asks_ready t refl h in
      on-Quiet w.target_ready t' _ asked (λ a.
        if_ind Quiet a
          (λ _. on-Quiet w.browser_params_ready t' _ asked (λ b.
            if_ind Quiet b
              (λ _.
                on-Quiet w.token_ready t' _ asked
                  (λ c. require-Quiet c provider_readiness t' asked))
              (λ _. asked)))
          (λ _. asked))

  loopback-Quiet : Quiet (gate_loopback w t)
  unfolding gate_loopback
  loopback-Quiet = require-Quiet (str_eq w.resolved_host "127.0.0.1") _ t h

  ci_check-Quiet : Quiet (gate_ci_check w t)
  unfolding gate_ci_check
  ci_check-Quiet =
      let asked = called-IsOffline asks_ci t refl h in
      on-Quiet w.check_once (called asks_ci t) _ asked (λ r. decided r asked)
    where
      decided :
          (r : CiCheckResult)
          → IsOffline (called asks_ci t).calls
          → Quiet (decide_ci r (called asks_ci t))
      decided all_pass asked = asked
      decided ci_blocked asked = asked

  token_source-Quiet : Quiet (gate_token_source w t)
  unfolding gate_token_source
  token_source-Quiet =
      on-Quiet w.token_source t (λ label. decide_token label t) h
        (λ label. if_ind Quiet (validate_token_source_class label) (λ _. h) (λ _. h))

  redaction_self_test-Quiet : Quiet (gate_redaction_self_test t)
  unfolding gate_redaction_self_test
  redaction_self_test-Quiet = if_ind Quiet self_test_passed (λ _. h) (λ _. h)

  target_validation-Quiet : Quiet (gate_target_validation w t)
  unfolding gate_target_validation
  target_validation-Quiet =
      let asked = called-IsOffline validates t refl h in
      on-Quiet w.target_source t _ h (λ label.
        on-Quiet (w.validate label) (called validates t) (λ r. decide_target r (called validates t))
          asked (λ r. decided r asked))
    where
      decided :
          (r : ValidationResult)
          → IsOffline (called validates t).calls
          → Quiet (decide_target r (called validates t))
      decided valid asked = asked
      decided target_blocked asked = asked

run_gates-Quiet :
    (k : ℕ) (C : Type 0) (g : Progress → Outcome) (rest : List (Progress → Outcome)) (t : Progress)
    → Passes k C (g t)
    → Quiet (g t)
    → ((t' : Progress)
        → IsAt k t'.gate_results
        → IsOffline t'.calls
        → C
        → Quiet (run_gates rest t'))
    → Quiet (run_gates (g ∷ rest) t)
unfolding run_gates
run_gates-Quiet k C g rest t h q step = go_on (g t) h q
  where
    go_on : (o : Outcome) → Passes k C o → Quiet o → Quiet (and_next o (λ t'. run_gates rest t'))
    go_on (go t') h q = step t' h.0 q h.1
    go_on (returns report calls) h q = q
    go_on (propagates e calls) h q = q

cleanup_call-IsOffline :
    (c : Call) (a : Answer (Unit {0})) (ending : Ending) (next : Ending → Ending)
    → is_offline c ≡ true
    → IsOffline (calls_of ending)
    → ((e : Ending) → IsOffline (calls_of e) → IsOffline (calls_of (next e)))
    → IsOffline (calls_of (cleanup_call c a ending next))
cleanup_call-IsOffline c a ending next e h step = cleaned a
  where
    more : (ending : Ending) → IsOffline (calls_of ending) → IsOffline (calls_of (also c ending))
    more (reported report calls) h = All-append (λ d. is_offline d ≡ true) calls (c ∷ []) h (e, tt)
    more (raised f calls) h = All-append (λ d. is_offline d ≡ true) calls (c ∷ []) h (e, tt)

    same :
        (f : Failure) (ending : Ending)
        → IsOffline (calls_of ending)
        → IsOffline (calls_of (replaced f ending))
    same f (reported report calls) h = h
    same f (raised f' calls) h = h

    cleaned : (a : Answer (Unit {0})) → IsOffline (calls_of (cleanup_call c a ending next))
    cleaned (ok _) = step (also c ending) (more ending h)
    cleaned (raises f) =
        if_ind (λ x. IsOffline (calls_of x)) (is_exception f)
          (λ _. step (also c ending) (more ending h)) (λ _. same f (also c ending) (more ending h))

gates-Quiet :
    (w : World)
    → ¬ IsPermitted w
    → (t : Progress) → IsAt 0 t.gate_results
    → IsOffline t.calls
    → Quiet (run_gates (gates w) t)
gates-Quiet w refused t h q =
    run_gates-Quiet 1 (AreReady w t) _ _ t (provider_readiness-Passes w t h)
      (provider_readiness-Quiet w t q)
      λ t1 h1 q1 ready.
        run_gates-Quiet 2 (str_eq w.resolved_host "127.0.0.1" ≡ true) _ _ t1
          (loopback-Passes w t1 h1) (loopback-Quiet w t1 q1)
          λ t2 h2 q2 loopback.
            run_gates-Quiet 3 (w.check_once ≡ ok all_pass) _ _ t2 (ci_check-Passes w t2 h2)
              (ci_check-Quiet w t2 q2)
              λ t3 h3 q3 ci.
                run_gates-Quiet 4 (HasToken w t3) _ _ t3 (token_source-Passes w t3 h3)
                  (token_source-Quiet w t3 q3)
                  λ t4 h4 q4 token.
                    run_gates-Quiet 5 (Unit {0}) _ _ t4 (redaction_self_test-Passes w t4 h4)
                      (redaction_self_test-Quiet w t4 q4)
                      λ t5 h5 q5 _.
                        run_gates-Quiet 6 (IsTargetValid w t5) _ _ t5
                          (target_validation-Passes w t5 h5) (target_validation-Quiet w t5 q5)
                          λ t6 h6 q6 target. absurd (refused (ready, loopback, ci, token, target))

-- Unless every provider is ready, the host is the loopback address, the CI check passes, the token's
-- label is no placeholder and the target's label is valid, a run starts no server and no browser and
-- calls neither: it makes no call but the questions to the providers, the CI check and the target
-- validator, and the two of the cleanup.
pub run-IsOffline : (w : World) → ¬ IsPermitted w → IsOffline (calls_of (run w))
unfolding run cleanup
run-IsOffline w refused =
    let t : Progress = record { gate_results = []; evidence = []; calls = [] } in
    cleanup_call-IsOffline stops_browser w.stop (conclude (run_gates (gates w) t))
      (λ e. cleanup_call stops_server w.shutdown e (λ x. x)) refl
      (concluded (run_gates (gates w) t) (gates-Quiet w refused t (tt, tt) tt))
      (λ e h. cleanup_call-IsOffline stops_server w.shutdown e (λ x. x) refl h (λ x h'. h'))
  where
    concluded : (o : Outcome) → Quiet o → IsOffline (calls_of (conclude o))
    concluded (go t) h = h
    concluded (returns report calls) h = h
    concluded (propagates e calls) h = h
