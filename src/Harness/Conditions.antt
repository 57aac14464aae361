-- ===== src/Harness/Conditions.antt =====
-- cli/smoke_clearance_real.py, RealClearanceHarness.run: what each gate asks for.
use sport_crawl.Prelude.{
  Bool, true, false, String, [], ◌∷◌, ◌++◌, ◌≡◌, ap, if_ind, str_eq, ◌==◌, ==_iff, ◌∙◌,
}
use sport_crawl.Harness.Seams.{
  blocked, fail, provider_readiness, loopback_assertion, ci_check, token_source_class,
  redaction_self_test, target_validation, work_server_startup, auth_failure_probe,
  work_server_health, CiCheckResult, all_pass, ci_blocked, ValidationResult, valid, target_blocked,
  ok, World, asks_ready, asks_ci, validates, starts_server, checks_health, probes_auth, text,
  number, scalar, Progress, called, noted, require, on,
}
use sport_crawl.Harness.Gates.{
  validate_token_source_class, self_test_passed, decide_ci, decide_token, decide_target,
  gate_provider_readiness, gate_loopback, gate_ci_check, gate_token_source,
  gate_redaction_self_test, gate_target_validation, gate_work_server_startup,
  gate_work_server_health, gate_auth_failure_probe, error_pair,
}
use sport_crawl.Harness.Passing.{
  IsAt, Ends, Passes, passed-Ends, stopped-Ends, require-Ends, on-Ends, catching-Ends, facts,
  answered,
}

module _ (w : World) (t : Progress) where
  abbrev pub AreReady : Type 0
  AreReady =
      (w.target_ready ≡ ok true) × (w.browser_params_ready ≡ ok true) × (w.token_ready ≡ ok true)

  pub provider_readiness-Passes :
      IsAt 0 t.gate_results → Passes 1 AreReady (gate_provider_readiness w t)
  unfolding gate_provider_readiness
  provider_readiness-Passes h =
      let t1 = called asks_ready t in
      let Q = λ (t' : Progress). IsAt 1 t'.gate_results × AreReady in
      let refused = stopped-Ends provider_readiness t1 h 1 AreReady blocked t1.evidence cc in
      on-Ends Q t1 _ w.target_ready (λ a ea.
        if_ind (Ends Q) a
          (λ ya. on-Ends Q t1 _ w.browser_params_ready (λ b eb.
            if_ind (Ends Q) b
              (λ yb.
                on-Ends Q t1 _ w.token_ready (λ c ec. third c (ea ∙ ap ok ya) (eb ∙ ap ok yb) ec))
              (λ _. refused)))
          (λ _. refused))
    where
      third :
          (c : Bool)
          → w.target_ready ≡ ok true
          → w.browser_params_ready ≡ ok true
          → w.token_ready ≡ ok c
          → Passes 1 AreReady (require c provider_readiness (called asks_ready t))
      third true a b c = passed-Ends provider_readiness (called asks_ready t) h AreReady (a, b, c)
      third false a b c =
          stopped-Ends provider_readiness (called asks_ready t) h 1 AreReady blocked t.evidence cc

  pub loopback-Passes :
      IsAt 1 t.gate_results
      → Passes 2 (str_eq w.resolved_host "127.0.0.1" ≡ true) (gate_loopback w t)
  unfolding gate_loopback
  loopback-Passes h = require-Ends loopback_assertion t h (str_eq w.resolved_host "127.0.0.1")

  pub ci_check-Passes :
      IsAt 2 t.gate_results → Passes 3 (w.check_once ≡ ok all_pass) (gate_ci_check w t)
  unfolding gate_ci_check
  ci_check-Passes h =
      on-Ends (λ t'. IsAt 3 t'.gate_results × (w.check_once ≡ ok all_pass)) (called asks_ci t)
        (λ r. decide_ci r (called asks_ci t)) w.check_once (λ r e. decided r e)
    where
      decided :
          (r : CiCheckResult)
          → w.check_once ≡ ok r
          → Passes 3 (w.check_once ≡ ok all_pass) (decide_ci r (called asks_ci t))
      decided all_pass e = passed-Ends ci_check (called asks_ci t) h (w.check_once ≡ ok all_pass) e
      decided ci_blocked e =
          stopped-Ends ci_check (called asks_ci t) h 3 (w.check_once ≡ ok all_pass) blocked
            (("ci_check_result", scalar (text "BLOCKED")) ∷ []) cc

  abbrev pub HasToken : Type 0
  HasToken =
      (label : String) × (w.token_source ≡ ok label) × (validate_token_source_class label ≡ true)

  pub token_source-Passes : IsAt 3 t.gate_results → Passes 4 HasToken (gate_token_source w t)
  unfolding gate_token_source
  token_source-Passes h =
      on-Ends (λ t'. IsAt 4 t'.gate_results × HasToken) t (λ label. decide_token label t)
        w.token_source
        (λ label e.
          if_ind (Passes 4 HasToken) (validate_token_source_class label)
            (λ known.
              passed-Ends token_source_class (noted "token_source_class" (text label) t) h HasToken
                (label, e, known))
            (λ _.
              stopped-Ends token_source_class t h 4 HasToken blocked
                (("token_source_class", scalar (text label)) ∷ []) cc))

  pub redaction_self_test-Passes :
      IsAt 4 t.gate_results → Passes 5 (Unit {0}) (gate_redaction_self_test t)
  unfolding gate_redaction_self_test
  redaction_self_test-Passes h =
      if_ind (Passes 5 (Unit {0})) self_test_passed
        (λ _. passed-Ends redaction_self_test t h (Unit {0}) tt)
        (λ _. stopped-Ends redaction_self_test t h 5 (Unit {0}) fail t.evidence cc)

  abbrev pub IsTargetValid : Type 0
  IsTargetValid = (label : String) × (w.target_source ≡ ok label) × (w.validate label ≡ ok valid)

  pub target_validation-Passes :
      IsAt 5 t.gate_results → Passes 6 IsTargetValid (gate_target_validation w t)
  unfolding gate_target_validation
  target_validation-Passes h =
      on-Ends (λ t'. IsAt 6 t'.gate_results × IsTargetValid) t
        (λ label. on (w.validate label) asked (λ r. decide_target r asked)) w.target_source
        (λ label e.
          on-Ends (λ t'. IsAt 6 t'.gate_results × IsTargetValid) asked (λ r. decide_target r asked)
            (w.validate label) (λ r e'. decided label e r e'))
    where
      asked : Progress
      asked = called validates t

      decided :
          (label : String)
          → w.target_source ≡ ok label
          → (r : ValidationResult) → w.validate label ≡ ok r
          → Passes 6 IsTargetValid (decide_target r asked)
      decided label e valid e' =
          passed-Ends target_validation (noted "target_validation_status" (text "VALID") asked) h
            IsTargetValid (label, e, e')
      decided label e target_blocked e' =
          let t' = noted "target_validation_status" (text "BLOCKED") asked in
          stopped-Ends target_validation t' h 6 IsTargetValid blocked t'.evidence cc

  pub work_server_startup-Passes :
      IsAt 6 t.gate_results → Passes 7 (w.startup ≡ ok tt) (gate_work_server_startup w t)
  unfolding gate_work_server_startup
  work_server_startup-Passes h =
      let t' = called starts_server t in
      catching-Ends (λ s. IsAt 7 s.gate_results × (w.startup ≡ ok tt)) t' _ w.startup _
        (λ _ e. passed-Ends work_server_startup t' h (w.startup ≡ ok tt) e)
        (λ e.
          stopped-Ends work_server_startup t' h 7 (w.startup ≡ ok tt) blocked
            (t'.evidence ++ error_pair "startup_error_type" "startup_error" e) cc)

  pub work_server_health-Passes :
      IsAt 7 t.gate_results → Passes 8 (w.health_check ≡ ok true) (gate_work_server_health w t)
  unfolding gate_work_server_health
  work_server_health-Passes h =
      let t' = called checks_health t in
      on-Ends (λ s. IsAt 8 s.gate_results × (w.health_check ≡ ok true)) t' _ w.health_check
        (λ b e. answered work_server_health t' h b w.health_check e)

  pub auth_failure_probe-Passes :
      IsAt 8 t.gate_results → Passes 9 (w.auth_failure_probe ≡ ok 401) (gate_auth_failure_probe w t)
  unfolding gate_auth_failure_probe
  auth_failure_probe-Passes h =
      let t' = called probes_auth t in
      let C : Type 0 = w.auth_failure_probe ≡ ok 401 in
      on-Ends (λ s. IsAt 9 s.gate_results × C) t' _ w.auth_failure_probe
        (λ status e.
          let t'' = noted "auth_probe_status" (number status) t' in
          facts 9 C (λ same. e ∙ ap ok ((==_iff status 401).0 same)) _
            (require-Ends auth_failure_probe t'' h (status == 401)))
