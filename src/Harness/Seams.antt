-- ===== src/Harness/Seams.antt =====
-- cli/smoke_clearance_real.py: the reports, the providers and seams with what they answer in a run, and
-- the ways in which a gate of RealClearanceHarness.run ends. What is logged is left out.
use sport_crawl.Prelude.{
  ℕ, String, Bool, true, false, Option, some, List, [], ◌∷◌, ◌++◌, if◌then◌else◌,
}

pub data GateStatus : Type 0 where
  pass blocked fail : GateStatus

-- HarnessStatus has the same three members.
abbrev pub HarnessStatus : Type 0
HarnessStatus = GateStatus

pub data Gate : Type 0 where
  provider_readiness loopback_assertion ci_check token_source_class redaction_self_test
        target_validation work_server_startup work_server_health auth_failure_probe browser_start
        cdp_ready extension_config_inject sw_keepalive_confirmed target_navigation
        clearance_observed expires_at_guard post_clearance final_redaction_scan :
      Gate

pub data Scalar : Type 0 where
  text : String → Scalar
  number : ℕ → Scalar
  flag : Bool → Scalar
  null : Scalar

pub data Value : Type 0 where
  scalar : Scalar → Value
  mapping : List (String × Scalar) → Value

abbrev pub Evidence : Type 0
Evidence = List (String × Value)

abbrev pub Results : Type 0
Results = List (Gate × GateStatus)

pub record HarnessReport : Type 0 where
  pub status : HarnessStatus
  pub gate_results : Results
  pub evidence : Evidence
  pub error_gate : Option Gate

-- What a call can raise: its class as the handlers tell it apart, the class's name, and its text.
pub data Class : Type 0 where
  permission_error connection_error value_error other base_exception : Class

pub record Failure : Type 0 where
  pub class : Class
  pub type_name : String
  pub message : String

-- `except Exception`.
abbrev pub is_caught : Class → Bool
is_caught permission_error = true
is_caught connection_error = true
is_caught value_error = true
is_caught other = true
is_caught base_exception = false

abbrev pub is_exception : Failure → Bool
is_exception e = is_caught e.class

pub data Answer {ℓ} (A : Type ℓ) : Type ℓ where
  ok : A → Answer A
  raises : Failure → Answer A

pub data CiCheckResult : Type 0 where
  all_pass ci_blocked : CiCheckResult

pub data ValidationResult : Type 0 where
  valid target_blocked : ValidationResult

-- Times in microseconds.
pub record ClearanceResult : Type 0 where
  pub obtained : Bool
  pub expires_at : Option ℕ
  pub clearance_class : String

-- The providers, the seams and the optional callables, with what each call answers.
pub record World : Type 0 where
  pub target_ready : Answer Bool
  pub browser_params_ready : Answer Bool
  pub token_ready : Answer Bool
  pub resolved_host : String
  pub check_once : Answer CiCheckResult
  pub token_source : Answer String
  pub target_source : Answer String
  pub validate : String → Answer ValidationResult
  pub startup : Answer (Unit {0})
  pub health_check : Answer Bool
  pub auth_failure_probe : Answer ℕ
  pub start : Answer Bool
  pub wait_cdp_ready : Answer (Bool × ℕ)
  pub extension_config_injector : Option (Answer (Unit {0}))
  pub sw_keepalive_checker : Option (Answer (Option Bool))
  pub target_navigator : Option (Answer (Unit {0}))
  pub observe : Answer ClearanceResult
  pub extension_diagnostic_reader : Option (Answer (Option (List (String × Scalar))))
  pub now : ℕ
  pub post : String → Answer (ℕ × ℕ)
  pub stop : Answer (Unit {0})
  pub shutdown : Answer (Unit {0})

-- The calls that reach outside the harness.
pub data Call : Type 0 where
  asks_ready asks_ci validates starts_server checks_health probes_auth starts_browser waits_cdp
        injects checks_keepalive navigates observes diagnoses posts stops_browser stops_server :
      Call

-- gate_results and evidence so far, and the calls that were made. No key of the two dictionaries is set
-- twice, so that they are lists in the order of insertion.
pub record Progress : Type 0 where
  pub gate_results : Results
  pub evidence : Evidence
  pub calls : List Call

-- How a gate ends.
pub data Outcome : Type 0 where
  go : Progress → Outcome
  returns : HarnessReport → List Call → Outcome
  propagates : Failure → List Call → Outcome

abbrev pub called : Call → Progress → Progress
called c t = record t { calls = t.calls ++ c ∷ [] }

abbrev pub noted : String → Scalar → Progress → Progress
noted key value t = record t { evidence = t.evidence ++ (key, scalar value) ∷ [] }

abbrev pub passed : Gate → Progress → Outcome
passed g t = go (record t { gate_results = t.gate_results ++ (g, pass) ∷ [] })

-- A gate that does not pass ends the run with its own status, and is the report's error_gate.
abbrev pub stopped : GateStatus → Gate → Evidence → Progress → Outcome
stopped status g evidence t =
    returns
      (record {
        status = status;
        gate_results = t.gate_results ++ (g, status) ∷ [];
        evidence = evidence;
        error_gate = some g;
      })
      t.calls

abbrev pub require : Bool → Gate → Progress → Outcome
require true g t = passed g t
require false g t = stopped blocked g t.evidence t

-- An answer that no handler expects to be an exception.
abbrev pub on {ℓ} : {A : Type ℓ} → Answer A → Progress → (A → Outcome) → Outcome
on (ok a) t next = next a
on (raises e) t next = propagates e t.calls

-- `except Exception as exc`, and otherwise.
abbrev pub catching {ℓ} :
    {A : Type ℓ} → Answer A → Progress → (A → Outcome) → (Failure → Outcome) → Outcome
catching (ok a) t next handler = next a
catching (raises e) t next handler = if is_exception e then handler e else propagates e t.calls
