-- ===== src/Harness/Tests.antt =====
-- cli/smoke_clearance_real.py: runs of the harness, and the theorems at them.
use sport_crawl.Prelude.{Bool, true, false, Option, none, some, ◌≡◌, refl, str_eq}
use sport_crawl.Harness.Patterns.{scan_for_sensitive}
use sport_crawl.Harness.Seams.{
  GateStatus, pass, fail, Gate, final_redaction_scan, all_pass, ValidationResult, valid,
  target_blocked, other, ok, raises, World,
}
use sport_crawl.Harness.Gates.{
  gate_provider_readiness, gate_loopback, gate_ci_check, gate_token_source,
  gate_redaction_self_test, gate_target_validation, gate_work_server_startup,
  gate_work_server_health, gate_auth_failure_probe,
}
use sport_crawl.Harness.Browser.{
  gate_final_redaction, gate_browser_start, gate_cdp_ready, gate_extension_config_inject,
  gate_sw_keepalive, gate_target_navigation, gate_clearance_observed, gate_expires_at,
  gate_post_clearance, any_sensitive, check_expires_at,
}
use sport_crawl.Harness.Run.{Ending, reported, raised, run_gates, cleanup, run}
use sport_crawl.Harness.Cleared.{IsGated, Reports}
use sport_crawl.Harness.Reports.{run-IsGated, calls_of}
use sport_crawl.Harness.Offline.{IsOffline, run-IsOffline}
use mathlib.Core.Path.{sym}
use mathlib.Core.Bool.{true≢false}

abbrev good_world : World
good_world = record {
  target_ready = ok true;
  browser_params_ready = ok true;
  token_ready = ok true;
  resolved_host = "127.0.0.1";
  check_once = ok all_pass;
  token_source = ok "env:SCRAPING__WORK_SERVER_TOKEN";
  target_source = ok "env:SCRAPING__WORK_SERVER_HOST";
  validate = λ label. ok (if_host (str_eq label "env:SCRAPING__WORK_SERVER_HOST"));
  startup = ok tt;
  health_check = ok true;
  auth_failure_probe = ok 401;
  start = ok true;
  wait_cdp_ready = ok (true, 3);
  extension_config_injector = none;
  sw_keepalive_checker = some (ok (some true));
  target_navigator = some (ok tt);
  observe = ok (record { obtained = true; expires_at = some 200000000; clearance_class = "cf" });
  extension_diagnostic_reader = none;
  now = 100000000;
  post = λ class. ok (204, 0);
  stop = ok tt;
  shutdown = raises (record { class = other; type_name = "OSError"; message = "" });
}
  where
    if_host : Bool → ValidationResult
    if_host true = valid
    if_host false = target_blocked

-- A clearance class that looks like a cookie.
abbrev leaking_world : World
leaking_world = record good_world {
  observe =
      ok (record {
        obtained = true;
        expires_at = some 200000000;
        clearance_class = "cf_clearance=x";
      });
}

abbrev status_of : Ending → Option (GateStatus × Option Gate)
status_of (reported r calls) = some (r.status, r.error_gate)
status_of (raised e calls) = none

scanned_tokens :
    scan_for_sensitive "http://user:@example.com tokens: x mypassword=1 auth_key = " ≡ false
unfolding scan_for_sensitive
scanned_tokens = refl

scanned_login : scan_for_sensitive "see ftp+ssl://me:a:b@host" ≡ true
unfolding scan_for_sensitive
scanned_login = refl

scanned_key : scan_for_sensitive "the API_KEY  :  x" ≡ true
unfolding scan_for_sensitive
scanned_key = refl

good_run : status_of (run good_world) ≡ some (pass, none)
unfolding run cleanup run_gates gate_provider_readiness gate_loopback gate_ci_check
    gate_token_source gate_redaction_self_test gate_target_validation gate_work_server_startup
    gate_work_server_health gate_auth_failure_probe gate_final_redaction gate_browser_start
    gate_cdp_ready gate_extension_config_inject gate_sw_keepalive gate_target_navigation
    gate_clearance_observed gate_expires_at gate_post_clearance any_sensitive check_expires_at
    scan_for_sensitive
good_run = refl

leaking_run : status_of (run leaking_world) ≡ some (fail, some final_redaction_scan)
unfolding run cleanup run_gates gate_provider_readiness gate_loopback gate_ci_check
    gate_token_source gate_redaction_self_test gate_target_validation gate_work_server_startup
    gate_work_server_health gate_auth_failure_probe gate_final_redaction gate_browser_start
    gate_cdp_ready gate_extension_config_inject gate_sw_keepalive gate_target_navigation
    gate_clearance_observed gate_expires_at gate_post_clearance any_sensitive check_expires_at
    scan_for_sensitive
leaking_run = refl

run-IsGated_example : Reports (IsGated leaking_world) (run leaking_world)
run-IsGated_example = run-IsGated leaking_world

-- A host that is not the loopback address.
abbrev remote_world : World
remote_world = record good_world { resolved_host = "10.0.0.7" }

run-IsOffline_example : IsOffline (calls_of (run remote_world))
run-IsOffline_example = run-IsOffline remote_world (λ p. absurd (true≢false (sym (p.1))))
