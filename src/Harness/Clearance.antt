-- ===== src/Harness/Clearance.antt =====
-- cli/smoke_clearance_real.py, RealClearanceHarness.run: what the gates of the clearance ask for.
use sport_crawl.Prelude.{
  ℕ, true, false, String, Option, none, some, List, [], ◌∷◌, ◌++◌, ◌≡◌, refl, arith, ap, if_ind,
  ◌==◌, ◌&&◌, ◌∙◌,
}
use sport_crawl.Harness.Seams.{
  blocked, fail, clearance_observed, expires_at_guard, post_clearance, final_redaction_scan,
  Failure, Class, permission_error, connection_error, value_error, other, base_exception, Answer,
  ok, raises, ClearanceResult, World, observes, diagnoses, posts, text, number, scalar, Scalar,
  Progress, called, noted, stopped,
}
use sport_crawl.Harness.Gates.{error_pair}
use sport_crawl.Harness.Browser.{
  check_expires_at, any_sensitive, gate_final_redaction, diagnosed, diagnose, observation_failed,
  observed, try_observe, gate_clearance_observed, gate_expires_at, post_failed, try_post,
  gate_post_clearance,
}
use sport_crawl.Harness.Passing.{
  IsAt, Ends, Passes, passed-Ends, stopped-Ends, require-Ends, catching-Ends, facts,
}

module _ (w : World) (t : Progress) where
  abbrev pub IsObserved : Type 0
  IsObserved = (r : ClearanceResult) × (w.observe ≡ ok r) × (r.obtained ≡ true)

  not_obtained :
      (t' : Progress)
      → IsAt 14 t'.gate_results
      → (call : Option (Answer (Option (List (String × Scalar)))))
      → Passes 15 IsObserved (diagnose call t')
  not_obtained t' h none = stopped-Ends clearance_observed t' h 15 IsObserved blocked t'.evidence cc
  not_obtained t' h (some answer) =
      catching-Ends (λ s. IsAt 15 s.gate_results × IsObserved) (called diagnoses t')
        (λ diag.
          let s = diagnosed diag (called diagnoses t') in
          stopped blocked clearance_observed s.evidence s)
        answer _ (λ diag _. read diag)
        (λ e.
          let s = noted "extension_diagnostic_error" (text e.type_name) (called diagnoses t') in
          stopped-Ends clearance_observed s h 15 IsObserved blocked s.evidence cc)
    where
      read :
          (diag : Option (List (String × Scalar)))
          → (let s = diagnosed diag (called diagnoses t') in
              Passes 15 IsObserved (stopped blocked clearance_observed s.evidence s))
      read none =
          stopped-Ends clearance_observed (called diagnoses t') h 15 IsObserved blocked t'.evidence
            cc
      read (some diag) =
          let s = diagnosed (some diag) (called diagnoses t') in
          stopped-Ends clearance_observed s h 15 IsObserved blocked s.evidence cc

  pub clearance_observed-Passes :
      IsAt 14 t.gate_results → Passes 15 IsObserved (gate_clearance_observed w t)
  unfolding gate_clearance_observed
  clearance_observed-Passes h = tried w.observe refl
    where
      t' : Progress
      t' = called observes t

      failed : (c : Class) (e : Failure) → Passes 15 IsObserved (observation_failed c e t')
      failed permission_error e =
          stopped-Ends clearance_observed t' h 15 IsObserved blocked
            (t'.evidence
              ++ ("clearance_getter_error_type", scalar (text "PermissionError"))
                ∷ ("clearance_getter_error", scalar (text "auth_failure"))
                ∷ [])
            cc
      failed connection_error e =
          stopped-Ends clearance_observed t' h 15 IsObserved blocked
            (t'.evidence
              ++ ("clearance_getter_error_type", scalar (text "ConnectionError"))
                ∷ ("clearance_getter_error", scalar (text "connection_failure"))
                ∷ [])
            cc
      failed value_error e = tt
      failed other e = tt
      failed base_exception e = tt

      tried :
          (a : Answer ClearanceResult) → w.observe ≡ a → Passes 15 IsObserved (try_observe w a t')
      tried (ok r) e =
          if_ind (Passes 15 IsObserved) r.obtained
            (λ got. passed-Ends clearance_observed (observed r t') h IsObserved (r, e, got))
            (λ _. not_obtained (observed r t') h w.extension_diagnostic_reader)
      tried (raises f) e = failed f.class f

  module _ (r : ClearanceResult) where
    pub expires_at-Passes :
        IsAt 15 t.gate_results
        → Passes 16 (check_expires_at r.expires_at w.now ≡ true) (gate_expires_at w r t)
    unfolding gate_expires_at
    expires_at-Passes h = require-Ends expires_at_guard t h (check_expires_at r.expires_at w.now)

    abbrev pub IsPosted : Type 0
    IsPosted = w.post r.clearance_class ≡ ok (204, 0)

    pub post_clearance-Passes :
        IsAt 16 t.gate_results → Passes 17 IsPosted (gate_post_clearance w r t)
    unfolding gate_post_clearance
    post_clearance-Passes h = tried (w.post r.clearance_class) refl
      where
        t' : Progress
        t' = called posts t

        failed : (c : Class) (e : Failure) → Passes 17 IsPosted (post_failed c e t')
        failed value_error e =
            stopped-Ends post_clearance t' h 17 IsPosted fail
              (t'.evidence ++ error_pair "post_error_type" "post_error" e) cc
        failed permission_error e = tt
        failed connection_error e = tt
        failed other e = tt
        failed base_exception e = tt

        tried :
            (a : Answer (ℕ × ℕ)) → w.post r.clearance_class ≡ a → Passes 17 IsPosted (try_post a t')
        tried (ok (status, bytes)) e =
            let s =
              noted "post_body_bytes" (number bytes)
                (noted "post_status_code" (number status) t') in
            facts 17 IsPosted (λ same. e ∙ ap ok (both status bytes same)) _
              (require-Ends post_clearance s h (status == 204 && bytes == 0))
          where
            both : (a b : ℕ) → (a == 204 && b == 0) ≡ true → ◌≡◌ {A = ℕ × ℕ} (a, b) (204, 0)
            both a b same = ground arith
        tried (raises f) e = failed f.class f

  pub final_redaction-Passes :
      IsAt 17 t.gate_results
      → Ends
          (λ s. IsAt 18 s.gate_results × (any_sensitive s.evidence ≡ false))
          (gate_final_redaction t)
  unfolding gate_final_redaction
  final_redaction-Passes h =
      if_ind (Ends (λ s. IsAt 18 s.gate_results × (any_sensitive s.evidence ≡ false)))
        (any_sensitive t.evidence)
        (λ _. stopped-Ends final_redaction_scan t h 18 (Unit {0}) fail [] cc)
        (λ clean. passed-Ends final_redaction_scan t h (any_sensitive t.evidence ≡ false) clean)
