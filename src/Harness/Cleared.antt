-- ===== src/Harness/Cleared.antt =====
-- cli/smoke_clearance_real.py, RealClearanceHarness.run: what the gates say of a run together.
use sport_crawl.Prelude.{ℕ, String, true, false, none, some, List, [], ◌∷◌, ◌≡◌, str_eq}
use mathlib.Core.Path.{◌∙◌, ap}
use sport_crawl.Harness.Seams.{
  pass, all_pass, valid, HarnessReport, ok, World, Progress, Outcome, go,
}
use sport_crawl.Harness.Gates.{validate_token_source_class}
use sport_crawl.Harness.Browser.{check_expires_at, any_sensitive, gate_final_redaction}
use sport_crawl.Harness.Run.{run_gates, clearance_of, gates, Ending, reported, raised}
use sport_crawl.Harness.Passing.{IsPassed, IsAt, IsStopped, Passes, Ends, Ends-and_next}
use sport_crawl.Harness.Conditions.{
  AreReady, HasToken, IsTargetValid, provider_readiness-Passes, loopback-Passes, ci_check-Passes,
  token_source-Passes, redaction_self_test-Passes, target_validation-Passes,
  work_server_startup-Passes, work_server_health-Passes, auth_failure_probe-Passes,
}
use sport_crawl.Harness.Launch.{
  IsIfGiven, IsCdpReady, browser_start-Passes, cdp_ready-Passes, extension_config_inject-Passes,
  sw_keepalive-Passes, target_navigation-Passes,
}
use sport_crawl.Harness.Clearance.{
  IsObserved, IsPosted, clearance_observed-Passes, expires_at-Passes, post_clearance-Passes,
  final_redaction-Passes,
}

-- What every call has answered in a run that passes.
pub record IsCleared (w : World) : Type 0 where
  pub ready :
      (w.target_ready ≡ ok true) × (w.browser_params_ready ≡ ok true) × (w.token_ready ≡ ok true)
  pub loopback : str_eq w.resolved_host "127.0.0.1" ≡ true
  pub ci : w.check_once ≡ ok all_pass
  pub token :
      (label : String) × (w.token_source ≡ ok label) × (validate_token_source_class label ≡ true)
  pub target : (label : String) × (w.target_source ≡ ok label) × (w.validate label ≡ ok valid)
  pub startup : w.startup ≡ ok tt
  pub healthy : w.health_check ≡ ok true
  pub probe : w.auth_failure_probe ≡ ok 401
  pub started : w.start ≡ ok true
  pub cdp : (elapsed : ℕ) × (w.wait_cdp_ready ≡ ok (true, elapsed))
  pub injected : IsIfGiven w.extension_config_injector tt
  pub keepalive : IsIfGiven w.sw_keepalive_checker (some true)
  pub navigated : IsIfGiven w.target_navigator tt
  pub obtained : (clearance_of w.observe).obtained ≡ true
  pub fresh : check_expires_at (clearance_of w.observe).expires_at w.now ≡ true
  pub posted : w.post (clearance_of w.observe).clearance_class ≡ ok (204, 0)

-- A report: it passes after every call answered as it has to, with clean evidence and no error_gate, or
-- names the gate that ended it, after passes in the order of the gates.
pub data IsGated (w : World) (r : HarnessReport) : Type 0 where
  clears :
      r.status ≡ pass
      → r.error_gate ≡ none
      → IsPassed 0 r.gate_results
      → any_sensitive r.evidence ≡ false
      → IsCleared w
      → IsGated w r
  stops : IsStopped r → IsGated w r

abbrev pub Reports : (HarnessReport → Type 0) → Ending → Type 0
Reports P (reported report calls) = P report
Reports P (raised e calls) = Unit

run_cons :
    (k : ℕ) (C : Type 0) (R : Progress → Type 0) (g : Progress → Outcome)
    (rest : List (Progress → Outcome)) (t : Progress)
    → Passes k C (g t)
    → ((t' : Progress) → IsAt k t'.gate_results → C → Ends R (run_gates rest t'))
    → Ends R (run_gates (g ∷ rest) t)
unfolding run_gates
run_cons k C R g rest t h step =
    Ends-and_next (λ t'. IsAt k t'.gate_results × C) R (g t) (λ t'. run_gates rest t') h
      (λ t' c. step t' c.0 c.1)

module _ (w : World) where
  abbrev pub IsThrough : Progress → Type 0
  IsThrough t = IsAt 18 t.gate_results × (any_sensitive t.evidence ≡ false) × IsCleared w

  pub last :
      (t : Progress)
      → IsAt 17 t.gate_results
      → IsCleared w
      → Ends IsThrough (run_gates (gate_final_redaction ∷ []) t)
  unfolding run_gates
  last t h cleared =
      Ends-and_next (λ s. IsAt 18 s.gate_results × (any_sensitive s.evidence ≡ false)) IsThrough
        (gate_final_redaction t) (λ t'. go t') (final_redaction-Passes w t h)
        (λ t' c. (c.0, c.1, cleared))

  pub run_gates-Ends :
      (t : Progress) → IsAt 0 t.gate_results → Ends IsThrough (run_gates (gates w) t)
  run_gates-Ends t h =
      run_cons 1 (AreReady w t) _ _ _ t (provider_readiness-Passes w t h) λ t1 h1 ready.
        run_cons 2 (str_eq w.resolved_host "127.0.0.1" ≡ true) _ _ _ t1 (loopback-Passes w t1 h1)
          λ t2 h2 loopback.
            run_cons 3 (w.check_once ≡ ok all_pass) _ _ _ t2 (ci_check-Passes w t2 h2) λ t3 h3 ci.
              run_cons 4 (HasToken w t3) _ _ _ t3 (token_source-Passes w t3 h3) λ t4 h4 token.
                run_cons 5 (Unit {0}) _ _ _ t4 (redaction_self_test-Passes w t4 h4) λ t5 h5 _.
                  run_cons 6 (IsTargetValid w t5) _ _ _ t5 (target_validation-Passes w t5 h5)
                    λ t6 h6 target.
                      run_cons 7 (w.startup ≡ ok tt) _ _ _ t6 (work_server_startup-Passes w t6 h6)
                        λ t7 h7 startup.
                          run_cons 8 (w.health_check ≡ ok true) _ _ _ t7
                            (work_server_health-Passes w t7 h7)
                            λ t8 h8 healthy.
                              run_cons 9 (w.auth_failure_probe ≡ ok 401) _ _ _ t8
                                (auth_failure_probe-Passes w t8 h8)
                                λ t9 h9 probe.
                                  run_cons 10 (w.start ≡ ok true) _ _ _ t9
                                    (browser_start-Passes w t9 h9)
                                    λ t10 h10 started.
                                      run_cons 11 (IsCdpReady w t10) _ _ _ t10
                                        (cdp_ready-Passes w t10 h10)
                                        λ t11 h11 cdp.
                                          run_cons 12 (IsIfGiven w.extension_config_injector tt) _ _
                                            _ t11 (extension_config_inject-Passes w t11 h11)
                                            λ t12 h12 injected.
                                              run_cons 13
                                                (IsIfGiven w.sw_keepalive_checker (some true)) _ _ _
                                                t12 (sw_keepalive-Passes w t12 h12)
                                                λ t13 h13 keepalive.
                                                  run_cons 14 (IsIfGiven w.target_navigator tt) _ _
                                                    _ t13 (target_navigation-Passes w t13 h13)
                                                    λ t14 h14 navigated.
                                                      run_cons 15 (IsObserved w t14) _ _ _ t14
                                                        (clearance_observed-Passes w t14 h14)
                                                        λ t15 h15 got.
                                                          run_cons 16
                                                            (check_expires_at
                                                            (clearance_of w.observe).expires_at
                                                            w.now
                                                            ≡ true)
                                                            _ _ _ t15
                                                            (expires_at-Passes w t15
                                                            (clearance_of w.observe) h15)
                                                            λ t16 h16 fresh.
                                                            run_cons 17
                                                            (IsPosted w t16
                                                            (clearance_of w.observe))
                                                            _ _ _ t16
                                                            (post_clearance-Passes w t16
                                                            (clearance_of w.observe) h16)
                                                            λ t17 h17 posted. last t17 h17 (record {
                                                            ready = ready;
                                                            loopback = loopback;
                                                            ci = ci;
                                                            token = token;
                                                            target = target;
                                                            startup = startup;
                                                            healthy = healthy;
                                                            probe = probe;
                                                            started = started;
                                                            cdp = cdp;
                                                            injected = injected;
                                                            keepalive = keepalive;
                                                            navigated = navigated;
                                                            obtained =
                                                            ap (λ a. (clearance_of a).obtained)
                                                            got.1
                                                            ∙ got.2;
                                                            fresh = fresh;
                                                            posted = posted;
                                                            })
