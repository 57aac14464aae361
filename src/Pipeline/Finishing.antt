-- ===== src/Pipeline/Finishing.antt =====
-- scripts/scrape_pipeline.py, main: the end of the pipeline once its workers have ended.
use sport_crawl.Prelude.{
  ℕ, zero, suc, ◌≤◌, true, false, some, List, [], ◌∷◌, ◌++◌, ◌≡◌, ◌≢◌, refl, arith, if◌then◌else◌,
  ◌<◌, inl, inr, Bool-cases,
}
use mathlib.Core.Path.{subst, ◌∙◌, ap}
use sport_crawl.Pipeline.Tasks.{
  all_ended, Reseeder, absent, created, sleeping, seeding, final, seeded, stopped, Main,
  gathering_players, joining, finished, is_over, Pipeline, start, watch, poll, reseed, wake_main,
  Event, watcher_wakes, poller_wakes, main_wakes, reseeder_wakes, display_wakes, wake, step, run,
}
use sport_crawl.Pipeline.Facts.{Facts, is_early}
use sport_crawl.Pipeline.Keeps.{Keeps, Keeps-poll, Keeps-reseed, Keeps-watch}
use sport_crawl.Pipeline.Order.{run-Holds}
use sport_crawl.Pipeline.Rounds.{
  one_round, rounds, rank, IsEnding, others, others-Keeps, others-IsAwake, main-IsEnding,
}

over-finished : (m : Main) (r : Reseeder) → is_over m ≡ true → rank m r < 9 → m ≡ finished
over-finished finished r o few = refl
over-finished m r o few = ground arith

module _ (workers trigger_count n : ℕ) where
  step-over :
      (e : Event) (p : Pipeline) → is_over p.main ≡ true → step workers trigger_count e p ≡ p
  unfolding step
  step-over e p o = ap (λ b. if b then p else wake workers trigger_count e p) o

  step-wake :
      (e : Event) (p : Pipeline)
      → is_over p.main ≡ false
      → step workers trigger_count e p ≡ wake workers trigger_count e p
  unfolding step
  step-wake e p o = ap (λ b. if b then p else wake workers trigger_count e p) o

  run-over :
      (events : List Event) (p : Pipeline)
      → is_over p.main ≡ true
      → run workers trigger_count events p ≡ p
  unfolding run
  run-over [] p o = refl
  run-over (e ∷ rest) p o =
      ap (λ q. run workers trigger_count rest q) (step-over e p o) ∙ run-over rest p o

  goes_on : (p q : Pipeline) → Keeps p q → is_over p.main ≡ false → is_over q.main ≡ false
  goes_on p q k o = ap is_over k.main ∙ o

  round-wake :
      (p : Pipeline)
      → is_over p.main ≡ false
      → run workers trigger_count (one_round n) p
        ≡ (let q = others trigger_count n p in wake_main workers q.main (some n) q)
  unfolding run
  round-wake p o =
      ap (λ q. later (step workers trigger_count (watcher_wakes (some n)) q))
        (step-wake (reseeder_wakes true) p o)
      ∙ ap later (step-wake (watcher_wakes (some n)) p1 o1)
      ∙ ap
          (λ q.
            step workers trigger_count (main_wakes (some n))
              (step workers trigger_count display_wakes q))
          (step-wake (poller_wakes (some n)) p2 o2)
      ∙ ap (step workers trigger_count (main_wakes (some n))) (step-wake display_wakes p3 o3)
      ∙ step-wake (main_wakes (some n)) (others trigger_count n p)
          (goes_on p (others trigger_count n p) (others-Keeps trigger_count n 0 p) o)
    where
      p1 : Pipeline
      p1 = reseed p.reseeder true p

      p2 : Pipeline
      p2 = watch trigger_count p1.watcher (some n) p1

      p3 : Pipeline
      p3 = poll p2.poller (some n) p2

      later : Pipeline → Pipeline
      later q = step workers trigger_count (main_wakes (some n)) (
          step workers trigger_count display_wakes
            (step workers trigger_count (poller_wakes (some n)) q))

      o1 : is_over p1.main ≡ false
      o1 = goes_on p p1 (Keeps-reseed p.reseeder true p refl) o

      o2 : is_over p2.main ≡ false
      o2 = goes_on p1 p2 (Keeps-watch trigger_count p1.watcher (some n) p1 refl) o1

      o3 : is_over p3.main ≡ false
      o3 = goes_on p2 p3 (Keeps-poll p2.poller (some n) p2 refl) o2

  round-IsEnding :
      (k : ℕ) (p : Pipeline)
      → k < 8
      → IsEnding (suc k) p
      → IsEnding k (run workers trigger_count (one_round n) p)
  round-IsEnding k p few h = elim (Bool-cases (is_over p.main)) [
    | inl over ↦
        let e = over-finished p.main p.reseeder over (omega (arith, h.near, few)) in
        rw (run-over (one_round n) p over) (record {
          holds = h.holds;
          teams = h.teams;
          players = h.players;
          info = h.info;
          near = rw e (omega arith);
        })
    | inr going ↦
        let q = others trigger_count n p in
        let a = others-IsAwake trigger_count n k p h few in
        rw (round-wake p going)
          (main-IsEnding workers trigger_count n k q.main q refl a.holds a a.near few)
  ]

  run-append :
      (xs ys : List Event) (p : Pipeline)
      → run workers trigger_count (xs ++ ys) p
        ≡ run workers trigger_count ys (run workers trigger_count xs p)
  unfolding run
  run-append [] ys p = refl
  run-append (e ∷ xs) ys p = run-append xs ys (step workers trigger_count e p)

  rounds-IsEnding :
      (k : ℕ) (p : Pipeline)
      → k ≤ 8
      → IsEnding k p
      → IsEnding 0 (run workers trigger_count (rounds k n) p)
  unfolding run
  rounds-IsEnding zero p few h = h
  rounds-IsEnding (suc k) p few h =
      rw (run-append (one_round n) (rounds k n) p)
        (rounds-IsEnding k _ (omega (arith, few)) (round-IsEnding k p (omega (arith, few)) h))

  ended-finished : (m : Main) (r : Reseeder) → rank m r ≤ 0 → m ≡ finished
  ended-finished finished r h = refl
  ended-finished gathering_players r h = ground arith
  ended-finished joining r h = ground arith
  ended-finished m r h = absurd (omega (arith, h))

near_of_early : (r : Reseeder) → is_early r ≡ true → r ≢ stopped → rank gathering_players r ≤ 8
near_of_early created h live = omega arith
near_of_early sleeping h live = omega arith
near_of_early seeding h live = omega arith
near_of_early absent h live = cc
near_of_early final h live = cc
near_of_early seeded h live = cc
near_of_early stopped h live = absurd (live refl)

-- From any state that the pipeline reaches with main in the gather of the player workers: once every
-- worker has ended, raising or not, and if the reseeder has not raised, eight rounds of wake-ups in
-- which no query and no drain raises end main.
pub run-finished :
    (workers trigger_count n_teams n_players s3_total n : ℕ) (events : List Event)
    → let p = run workers trigger_count events (start n_teams n_players s3_total) in
      p.main ≡ gathering_players
      → all_ended p.teams ≡ true
      → all_ended p.players ≡ true
      → all_ended p.info ≡ true
      → p.reseeder ≢ stopped
      → (run workers trigger_count (rounds 8 n) p).main ≡ finished
run-finished workers trigger_count n_teams n_players s3_total n events m teams players info live =
    let p = run workers trigger_count events (start n_teams n_players s3_total) in
    let h = run-Holds n_teams n_players workers trigger_count s3_total events in
    let facts : Facts gathering_players p = subst (λ k. Facts k p) m h in
    let ends = rounds-IsEnding workers trigger_count n 8 p (omega arith) (record {
      holds = h;
      teams = teams;
      players = players;
      info = info;
      near = rw m (near_of_early p.reseeder facts.2 live);
    }) in
    let q = run workers trigger_count (rounds 8 n) p in
    ended-finished workers trigger_count n q.main q.reseeder ends.near
