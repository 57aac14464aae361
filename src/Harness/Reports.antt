-- ===== src/Harness/Reports.antt =====
-- cli/smoke_clearance_real.py, RealClearanceHarness.run: what a report says, and the cleanup.
use sport_crawl.Prelude.{true, List, [], ◌∷◌, ◌++◌, ◌≡◌, refl, if_ind, if◌then◌else◌}
use mathlib.Core.Path.{◌∙◌, ap}
use mathlib.Core.List.{append_assoc}
use sport_crawl.Harness.Seams.{
  Failure, is_exception, Answer, ok, raises, World, Call, stops_browser, stops_server, Progress,
  Outcome, go, returns, propagates,
}
use sport_crawl.Harness.Run.{
  run_gates, gates, Ending, reported, raised, conclude, also, replaced, cleanup_call, cleanup, run,
}
use sport_crawl.Harness.Passing.{Ends}
use sport_crawl.Harness.Cleared.{IsGated, IsThrough, Reports, clears, run_gates-Ends, stops}

module _ (w : World) where
  conclude-Reports : (o : Outcome) → Ends (IsThrough w) o → Reports (IsGated w) (conclude o)
  conclude-Reports (go t) h = clears refl refl h.0.0 h.1 h.2
  conclude-Reports (returns report calls) h = stops h
  conclude-Reports (propagates e calls) h = tt

  also-Reports :
      (c : Call) (ending : Ending)
      → Reports (IsGated w) ending
      → Reports (IsGated w) (also c ending)
  also-Reports c (reported report calls) h = h
  also-Reports c (raised e calls) h = tt

  replaced-Reports : (e : Failure) (ending : Ending) → Reports (IsGated w) (replaced e ending)
  replaced-Reports e (reported report calls) = tt
  replaced-Reports e (raised e' calls) = tt

  cleanup_call-Reports :
      (c : Call) (a : Answer (Unit {0})) (ending : Ending) (next : Ending → Ending)
      → Reports (IsGated w) ending
      → ((e : Ending) → Reports (IsGated w) e → Reports (IsGated w) (next e))
      → Reports (IsGated w) (cleanup_call c a ending next)
  cleanup_call-Reports c (ok _) ending next h step = step (also c ending) (also-Reports c ending h)
  cleanup_call-Reports c (raises e) ending next h step =
      if_ind (Reports (IsGated w)) (is_exception e)
        (λ _. step (also c ending) (also-Reports c ending h))
        (λ _. replaced-Reports e (also c ending))

  -- The report of every run, whatever the providers, the seams and the optional callables answer or
  -- raise: it passes only if every one of them answered as it has to, names no gate and holds no text
  -- that looks like a secret; or its last gate is the one that did not pass, named by error_gate and with
  -- the report's status, and the gates before it passed, in their order.
  pub run-IsGated : Reports (IsGated w) (run w)
  unfolding run cleanup
  run-IsGated =
      let t : Progress = record { gate_results = []; evidence = []; calls = [] } in
      cleanup_call-Reports stops_browser w.stop (conclude (run_gates (gates w) t))
        (λ e. cleanup_call stops_server w.shutdown e (λ e'. e'))
        (conclude-Reports (run_gates (gates w) t) (run_gates-Ends w t (tt, tt)))
        (λ e h. cleanup_call-Reports stops_server w.shutdown e (λ e'. e') h (λ e' h'. h'))

-- A cleanup call that raises, if at all, what `except Exception` catches.
abbrev pub IsCaught : Answer (Unit {0}) → Type 0
IsCaught (ok _) = Unit
IsCaught (raises e) = is_exception e ≡ true

abbrev pub calls_of : Ending → List Call
calls_of (reported report calls) = calls
calls_of (raised e calls) = calls

calls_of-also : (c : Call) (ending : Ending) → calls_of (also c ending) ≡ calls_of ending ++ c ∷ []
calls_of-also c (reported report calls) = refl
calls_of-also c (raised e calls) = refl

cleanup_call_caught :
    (c : Call) (a : Answer (Unit {0})) (ending : Ending) (next : Ending → Ending)
    → IsCaught a
    → cleanup_call c a ending next ≡ next (also c ending)
cleanup_call_caught c (ok _) ending next h = refl
cleanup_call_caught c (raises e) ending next h =
    ap (λ b. if b then next (also c ending) else replaced e (also c ending)) h

-- The cleanup of every run, also of one that an exception leaves: the last two calls stop the browser
-- and then the server, unless the cleanup itself raises what is no Exception.
pub run-cleans :
    (w : World)
    → IsCaught w.stop
    → IsCaught w.shutdown
    → (before : List Call) × (calls_of (run w) ≡ before ++ stops_browser ∷ stops_server ∷ [])
unfolding run cleanup
run-cleans w stop shutdown =
    let e =
      conclude (run_gates (gates w) (record { gate_results = []; evidence = []; calls = [] })) in
    (
      calls_of e,
      ap calls_of (
            cleanup_call_caught stops_browser w.stop e
              (λ e'. cleanup_call stops_server w.shutdown e' (λ x. x)) stop)
          ∙ ap calls_of
              (cleanup_call_caught stops_server w.shutdown (also stops_browser e) (λ x. x) shutdown)
          ∙ calls_of-also stops_server (also stops_browser e)
          ∙ ap (λ c. c ++ stops_server ∷ []) (calls_of-also stops_browser e)
          ∙ append_assoc (calls_of e) (stops_browser ∷ []) (stops_server ∷ []),
    )
