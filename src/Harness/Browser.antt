-- ===== src/Harness/Browser.antt =====
-- cli/smoke_clearance_real.py, RealClearanceHarness.run: the gates from the browser's start on.
use sport_crawl.Prelude.{
  ℕ, ◌+◌, String, Bool, true, false, Option, none, some, List, [], ◌∷◌, ◌++◌, ◌&&◌, ◌||◌, ltb, leb,
  ◌==◌, str_eq, if◌then◌else◌, select,
}
use sport_crawl.Harness.Patterns.{scan_for_sensitive}
use sport_crawl.Harness.Seams.{
  blocked, fail, browser_start, cdp_ready, extension_config_inject, sw_keepalive_confirmed,
  target_navigation, clearance_observed, expires_at_guard, post_clearance, final_redaction_scan,
  Scalar, text, number, flag, null, Value, scalar, mapping, Evidence, Failure, Class,
  permission_error, connection_error, value_error, other, base_exception, Answer, ok, raises,
  ClearanceResult, World, starts_browser, waits_cdp, injects, checks_keepalive, navigates, observes,
  diagnoses, posts, Progress, Outcome, go, propagates, called, noted, passed, stopped, require, on,
  catching,
}
use sport_crawl.Harness.Gates.{error_pair}

-- now < expires_at ≤ now + 5 minutes, in microseconds.
unfoldable pub check_expires_at : Option ℕ → ℕ → Bool
check_expires_at none now = false
check_expires_at (some t) now = ltb now t && leb t (now + 300000000)

abbrev pub is_safe_key : String × Scalar → Bool
is_safe_key (key, value) =
    str_eq key "attempted"
    || str_eq key "drop_reason"
    || str_eq key "error_class"
    || str_eq key "http_status_class"

-- evidence["extension_diagnostic"], without the keys that are not known to be safe.
abbrev pub diagnosed : Option (List (String × Scalar)) → Progress → Progress
diagnosed none t = t
diagnosed (some diag) t = record t {
  evidence = t.evidence ++ ("extension_diagnostic", mapping (select is_safe_key diag)) ∷ [];
}

abbrev pub holds_sensitive : Value → Bool
holds_sensitive (scalar (text s)) = scan_for_sensitive s
holds_sensitive _ = false

unfoldable pub any_sensitive : Evidence → Bool
any_sensitive [] = false
any_sensitive ((key, value) ∷ rest) = holds_sensitive value || any_sensitive rest

unfoldable pub gate_final_redaction : Progress → Outcome
gate_final_redaction t =
    if any_sensitive t.evidence
    then stopped fail final_redaction_scan [] t
    else passed final_redaction_scan t

abbrev pub decide_cdp : Bool × ℕ → Progress → Outcome
decide_cdp (ready, elapsed) t = require ready cdp_ready (noted "cdp_elapsed_s" (number elapsed) t)

abbrev pub try_inject : Option (Answer (Unit {0})) → Progress → Outcome
try_inject none t = go t
try_inject (some answer) t0 =
    let t = called injects t0 in
    catching answer t (λ _. passed extension_config_inject t)
      (λ e.
        stopped blocked extension_config_inject
          (t.evidence ++ error_pair "extension_inject_error_type" "extension_inject_error" e) t)

abbrev pub keepalive_unknown : Progress → Outcome
keepalive_unknown t =
    stopped blocked sw_keepalive_confirmed
      (t.evidence
        ++ ("sw_keepalive_alarm_present", scalar null)
          ∷ ("sw_keepalive_alarm_error_type", scalar (text "sw_unreachable"))
          ∷ [])
      t

abbrev pub decide_keepalive : Option Bool → Progress → Outcome
decide_keepalive (some true) t =
    passed sw_keepalive_confirmed (noted "sw_keepalive_alarm_present" (flag true) t)
decide_keepalive (some false) t =
    stopped blocked sw_keepalive_confirmed
      (t.evidence ++ ("sw_keepalive_alarm_present", scalar (flag false)) ∷ []) t
decide_keepalive none t = keepalive_unknown t

abbrev pub try_keepalive : Option (Answer (Option Bool)) → Progress → Outcome
try_keepalive none t = go t
try_keepalive (some answer) t0 =
    let t = called checks_keepalive t0 in
    catching answer t (λ r. decide_keepalive r t) (λ _. keepalive_unknown t)

abbrev pub try_navigate : Option (Answer (Unit {0})) → Progress → Outcome
try_navigate none t = go t
try_navigate (some answer) t0 =
    let t = called navigates t0 in
    catching answer t (λ _. passed target_navigation t)
      (λ e.
        stopped blocked target_navigation
          (t.evidence ++ ("target_navigate_error_type", scalar (text e.type_name)) ∷ []) t)

-- A clearance that was not obtained: the diagnostics are read as far as they can be.
abbrev pub diagnose : Option (Answer (Option (List (String × Scalar)))) → Progress → Outcome
diagnose none t = stopped blocked clearance_observed t.evidence t
diagnose (some answer) t0 =
    let t = called diagnoses t0 in
    catching answer t
      (λ diag. let t' = diagnosed diag t in stopped blocked clearance_observed t'.evidence t')
      (λ e.
        let t' = noted "extension_diagnostic_error" (text e.type_name) t in
        stopped blocked clearance_observed t'.evidence t')

abbrev pub not_observed : String → String → Progress → Outcome
not_observed type_name why t =
    stopped blocked clearance_observed
      (t.evidence
        ++ ("clearance_getter_error_type", scalar (text type_name))
          ∷ ("clearance_getter_error", scalar (text why))
          ∷ [])
      t

abbrev pub observation_failed : Class → Failure → Progress → Outcome
observation_failed permission_error e t = not_observed "PermissionError" "auth_failure" t
observation_failed connection_error e t = not_observed "ConnectionError" "connection_failure" t
observation_failed value_error e t = propagates e t.calls
observation_failed other e t = propagates e t.calls
observation_failed base_exception e t = propagates e t.calls

abbrev pub decide_post : ℕ × ℕ → Progress → Outcome
decide_post (status, body_bytes) t0 =
    let t =
      noted "post_body_bytes" (number body_bytes) (noted "post_status_code" (number status) t0) in
    require (status == 204 && body_bytes == 0) post_clearance t

abbrev pub post_failed : Class → Failure → Progress → Outcome
post_failed value_error e t =
    stopped fail post_clearance (t.evidence ++ error_pair "post_error_type" "post_error" e) t
post_failed permission_error e t = propagates e t.calls
post_failed connection_error e t = propagates e t.calls
post_failed other e t = propagates e t.calls
post_failed base_exception e t = propagates e t.calls

abbrev pub try_post : Answer (ℕ × ℕ) → Progress → Outcome
try_post (ok answer) t = decide_post answer t
try_post (raises e) t = post_failed e.class e t

-- The evidence of an observation.
abbrev pub observed : ClearanceResult → Progress → Progress
observed r t =
    noted "clearance_obtained" (flag r.obtained)
      (noted "clearance_class" (text r.clearance_class) t)

module _ (w : World) where
  unfoldable pub gate_browser_start : Progress → Outcome
  gate_browser_start t0 =
      let t = called starts_browser t0 in on w.start t (λ started. require started browser_start t)

  unfoldable pub gate_cdp_ready : Progress → Outcome
  gate_cdp_ready t0 =
      let t = called waits_cdp t0 in on w.wait_cdp_ready t (λ answer. decide_cdp answer t)

  unfoldable pub gate_extension_config_inject : Progress → Outcome
  gate_extension_config_inject t = try_inject w.extension_config_injector t

  unfoldable pub gate_sw_keepalive : Progress → Outcome
  gate_sw_keepalive t = try_keepalive w.sw_keepalive_checker t

  unfoldable pub gate_target_navigation : Progress → Outcome
  gate_target_navigation t = try_navigate w.target_navigator t

  -- The guard on expires_at, once the clearance is there.
  unfoldable pub gate_expires_at : ClearanceResult → Progress → Outcome
  gate_expires_at r t = require (check_expires_at r.expires_at w.now) expires_at_guard t

  unfoldable pub gate_post_clearance : ClearanceResult → Progress → Outcome
  gate_post_clearance r t0 = let t = called posts t0 in try_post (w.post r.clearance_class) t

  abbrev pub decide_observed : ClearanceResult → Progress → Outcome
  decide_observed r t0 =
      let t = observed r t0 in
      if r.obtained then passed clearance_observed t else diagnose w.extension_diagnostic_reader t

  abbrev pub try_observe : Answer ClearanceResult → Progress → Outcome
  try_observe (ok r) t = decide_observed r t
  try_observe (raises e) t = observation_failed e.class e t

  unfoldable pub gate_clearance_observed : Progress → Outcome
  gate_clearance_observed t0 = let t = called observes t0 in try_observe w.observe t
