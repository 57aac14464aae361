-- ===== src/Harness/Launch.antt =====
-- cli/smoke_clearance_real.py, RealClearanceHarness.run: what the gates of the browser ask for.
use sport_crawl.Prelude.{
  ℕ, Bool, true, false, Option, none, some, [], ◌∷◌, ◌++◌, ◌≡◌, ◌⊎◌, inl, inr, refl, arith, ap, ◌∙◌,
}
use sport_crawl.Harness.Seams.{
  blocked, cdp_ready, extension_config_inject, sw_keepalive_confirmed, target_navigation,
  browser_start, Answer, ok, World, starts_browser, waits_cdp, injects, checks_keepalive, navigates,
  text, number, flag, null, scalar, Progress, called, noted,
}
use sport_crawl.Harness.Gates.{error_pair}
use sport_crawl.Harness.Browser.{
  gate_browser_start, gate_cdp_ready, decide_cdp, try_inject, gate_extension_config_inject,
  decide_keepalive, keepalive_unknown, try_keepalive, gate_sw_keepalive, try_navigate,
  gate_target_navigation,
}
use sport_crawl.Harness.Passing.{
  IsAt, Passes, passed-Ends, stopped-Ends, on-Ends, catching-Ends, IsAt-le, answered,
}

-- A result of an optional callable: none was given, or it answered as it has to.
abbrev pub IsIfGiven {ℓ} : {A : Type ℓ} → Option (Answer A) → A → Type ℓ
IsIfGiven call answer = (call ≡ none) ⊎ (call ≡ some (ok answer))

module _ (w : World) (t : Progress) where
  pub browser_start-Passes :
      IsAt 9 t.gate_results → Passes 10 (w.start ≡ ok true) (gate_browser_start w t)
  unfolding gate_browser_start
  browser_start-Passes h =
      let t' = called starts_browser t in
      on-Ends (λ s. IsAt 10 s.gate_results × (w.start ≡ ok true)) t' _ w.start
        (λ b e. answered browser_start t' h b w.start e)

  abbrev pub IsCdpReady : Type 0
  IsCdpReady = (elapsed : ℕ) × (w.wait_cdp_ready ≡ ok (true, elapsed))

  pub cdp_ready-Passes : IsAt 10 t.gate_results → Passes 11 IsCdpReady (gate_cdp_ready w t)
  unfolding gate_cdp_ready
  cdp_ready-Passes h =
      on-Ends (λ s. IsAt 11 s.gate_results × IsCdpReady) (called waits_cdp t) _ w.wait_cdp_ready
        decided
    where
      decided :
          (answer : Bool × ℕ)
          → w.wait_cdp_ready ≡ ok answer
          → Passes 11 IsCdpReady (decide_cdp answer (called waits_cdp t))
      decided (true, n) e =
          passed-Ends cdp_ready (noted "cdp_elapsed_s" (number n) (called waits_cdp t)) h IsCdpReady
            (n, e)
      decided (false, n) e =
          let t' = noted "cdp_elapsed_s" (number n) (called waits_cdp t) in
          stopped-Ends cdp_ready t' h 11 IsCdpReady blocked t'.evidence cc

  pub extension_config_inject-Passes :
      IsAt 11 t.gate_results
      → Passes 12 (IsIfGiven w.extension_config_injector tt) (gate_extension_config_inject w t)
  unfolding gate_extension_config_inject
  extension_config_inject-Passes h = tried w.extension_config_injector refl
    where
      C : Type 0
      C = IsIfGiven w.extension_config_injector tt

      tried :
          (call : Option (Answer (Unit {0})))
          → w.extension_config_injector ≡ call
          → Passes 12 C (try_inject call t)
      tried none e = (IsAt-le 11 12 t.gate_results (omega arith) h, inl e)
      tried (some answer) e =
          let t' = called injects t in
          catching-Ends (λ s. IsAt 12 s.gate_results × C) t' _ answer _
            (λ _ e'. passed-Ends extension_config_inject t' h C (inr (e ∙ ap some e')))
            (λ f.
              stopped-Ends extension_config_inject t' h 12 C blocked
                (t'.evidence ++ error_pair "extension_inject_error_type" "extension_inject_error" f)
                cc)

  pub target_navigation-Passes :
      IsAt 13 t.gate_results
      → Passes 14 (IsIfGiven w.target_navigator tt) (gate_target_navigation w t)
  unfolding gate_target_navigation
  target_navigation-Passes h = tried w.target_navigator refl
    where
      C : Type 0
      C = IsIfGiven w.target_navigator tt

      tried :
          (call : Option (Answer (Unit {0})))
          → w.target_navigator ≡ call
          → Passes 14 C (try_navigate call t)
      tried none e = (IsAt-le 13 14 t.gate_results (omega arith) h, inl e)
      tried (some answer) e =
          let t' = called navigates t in
          catching-Ends (λ s. IsAt 14 s.gate_results × C) t' _ answer _
            (λ _ e'. passed-Ends target_navigation t' h C (inr (e ∙ ap some e')))
            (λ f.
              stopped-Ends target_navigation t' h 14 C blocked
                (t'.evidence ++ ("target_navigate_error_type", scalar (text f.type_name)) ∷ []) cc)

  pub sw_keepalive-Passes :
      IsAt 12 t.gate_results
      → Passes 13 (IsIfGiven w.sw_keepalive_checker (some true)) (gate_sw_keepalive w t)
  unfolding gate_sw_keepalive
  sw_keepalive-Passes h = tried w.sw_keepalive_checker refl
    where
      C : Type 0
      C = IsIfGiven w.sw_keepalive_checker (some true)

      t' : Progress
      t' = called checks_keepalive t

      unknown : Passes 13 C (keepalive_unknown t')
      unknown =
          stopped-Ends sw_keepalive_confirmed t' h 13 C blocked
            (t'.evidence
              ++ ("sw_keepalive_alarm_present", scalar null)
                ∷ ("sw_keepalive_alarm_error_type", scalar (text "sw_unreachable"))
                ∷ [])
            cc

      decided :
          (r : Option Bool)
          → w.sw_keepalive_checker ≡ some (ok r)
          → Passes 13 C (decide_keepalive r t')
      decided (some true) e =
          passed-Ends sw_keepalive_confirmed (noted "sw_keepalive_alarm_present" (flag true) t') h C
            (inr e)
      decided (some false) e =
          stopped-Ends sw_keepalive_confirmed t' h 13 C blocked
            (t'.evidence ++ ("sw_keepalive_alarm_present", scalar (flag false)) ∷ []) cc
      decided none e = unknown

      tried :
          (call : Option (Answer (Option Bool)))
          → w.sw_keepalive_checker ≡ call
          → Passes 13 C (try_keepalive call t)
      tried none e = (IsAt-le 12 13 t.gate_results (omega arith) h, inl e)
      tried (some answer) e =
          catching-Ends (λ s. IsAt 13 s.gate_results × C) t' (λ r. decide_keepalive r t') answer
            (λ _. keepalive_unknown t') (λ r e'. decided r (e ∙ ap some e')) (λ _. unknown)
