-- ===== src/Harness/Run.antt =====
-- cli/smoke_clearance_real.py, RealClearanceHarness.run: the gates in their order, and the cleanup.
use sport_crawl.Prelude.{List, [], ◌∷◌, ◌++◌, false, none, if◌then◌else◌}
use sport_crawl.Harness.Seams.{
  pass, HarnessReport, Failure, is_exception, Answer, ok, raises, ClearanceResult, World, Call,
  stops_browser, stops_server, Progress, Outcome, go, returns, propagates,
}
use sport_crawl.Harness.Gates.{
  gate_provider_readiness, gate_loopback, gate_ci_check, gate_token_source,
  gate_redaction_self_test, gate_target_validation, gate_work_server_startup,
  gate_work_server_health, gate_auth_failure_probe,
}
use sport_crawl.Harness.Browser.{
  gate_final_redaction, gate_browser_start, gate_cdp_ready, gate_extension_config_inject,
  gate_sw_keepalive, gate_target_navigation, gate_clearance_observed, gate_expires_at,
  gate_post_clearance,
}

-- The next gate, if the run goes on.
abbrev pub and_next : Outcome → (Progress → Outcome) → Outcome
and_next (go t) next = next t
and_next (returns report calls) next = returns report calls
and_next (propagates e calls) next = propagates e calls

unfoldable pub run_gates : List (Progress → Outcome) → Progress → Outcome
run_gates [] t = go t
run_gates (g ∷ rest) t = and_next (g t) (λ t'. run_gates rest t')

-- What the last gates read of the observation; only a clearance that was obtained reaches them.
abbrev pub clearance_of : Answer ClearanceResult → ClearanceResult
clearance_of (ok r) = r
clearance_of (raises e) = record { obtained = false; expires_at = none; clearance_class = "" }

abbrev pub gates : World → List (Progress → Outcome)
gates w =
    gate_provider_readiness w
    ∷ gate_loopback w
    ∷ gate_ci_check w
    ∷ gate_token_source w
    ∷ gate_redaction_self_test
    ∷ gate_target_validation w
    ∷ gate_work_server_startup w
    ∷ gate_work_server_health w
    ∷ gate_auth_failure_probe w
    ∷ gate_browser_start w
    ∷ gate_cdp_ready w
    ∷ gate_extension_config_inject w
    ∷ gate_sw_keepalive w
    ∷ gate_target_navigation w
    ∷ gate_clearance_observed w
    ∷ gate_expires_at w (clearance_of w.observe)
    ∷ gate_post_clearance w (clearance_of w.observe)
    ∷ gate_final_redaction
    ∷ []

-- The report, or the exception that leaves the run; and all the calls.
pub data Ending : Type 0 where
  reported : HarnessReport → List Call → Ending
  raised : Failure → List Call → Ending

-- A run through all the gates.
abbrev pub conclude : Outcome → Ending
conclude (go t) =
    reported
      (record {
        status = pass;
        gate_results = t.gate_results;
        evidence = t.evidence;
        error_gate = none;
      })
      t.calls
conclude (returns report calls) = reported report calls
conclude (propagates e calls) = raised e calls

abbrev pub also : Call → Ending → Ending
also c (reported report calls) = reported report (calls ++ c ∷ [])
also c (raised e calls) = raised e (calls ++ c ∷ [])

abbrev pub replaced : Failure → Ending → Ending
replaced e (reported report calls) = raised e calls
replaced e (raised e' calls) = raised e calls

-- `finally`: an exception of a cleanup call is dropped; what is none replaces the ending, and skips what
-- is left of the cleanup.
abbrev pub cleanup_call : Call → Answer (Unit {0}) → Ending → (Ending → Ending) → Ending
cleanup_call c (ok _) ending next = next (also c ending)
cleanup_call c (raises e) ending next =
    if is_exception e then next (also c ending) else replaced e (also c ending)

unfoldable pub cleanup : World → Ending → Ending
cleanup w ending =
    cleanup_call stops_browser w.stop ending
      (λ e. cleanup_call stops_server w.shutdown e (λ e'. e'))

unfoldable pub run : World → Ending
run w =
    cleanup w
      (conclude (run_gates (gates w) (record { gate_results = []; evidence = []; calls = [] })))
