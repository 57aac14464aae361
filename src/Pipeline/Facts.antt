-- ===== src/Pipeline/Facts.antt =====
-- scripts/scrape_pipeline.py, main: what holds where it is suspended.
use sport_crawl.Prelude.{
  ℕ, zero, suc, Bool, true, false, none, some, List, [], ◌∷◌, ◌≡◌, refl, arith, if_ind, sym, ap,
}
use mathlib.Core.Path.{subst, ◌∙◌}
use mathlib.Core.Bool.{true≢false}
use sport_crawl.Pipeline.Tasks.{
  Task, running, returned, failed, all_ended, end_at, is_live, Reseeder, absent, created, sleeping,
  seeding, final, seeded, stopped, Main, waiting, recovering, draining, refreshing,
  gathering_players, joining, gathering_info, gathering_teams, cancelling, closing, finished,
  aborted, Pipeline, Count, join_reseeder, start_info, go_on, wake_main,
}

-- Whether the reseeder may stand there while step 2 is not done, and once it is.
abbrev pub is_early : Reseeder → Bool
is_early created = true
is_early sleeping = true
is_early seeding = true
is_early stopped = true
is_early _ = false

-- The last drain runs, or has ended well.
abbrev pub is_last : Reseeder → Bool
is_last final = true
is_last seeded = true
is_last _ = false

-- Before the trigger.
abbrev pub IsBefore : Pipeline → Type 0
IsBefore p =
    (p.info ≡ [])
    × (p.reseeder ≡ absent)
    × (p.step2_done ≡ false)
    × (p.cancel ≡ false)
    × (p.stop ≡ false)

-- Beyond the gather of the player workers.
abbrev pub IsBeyond : Pipeline → Type 0
IsBeyond p = (p.step3_ready ≡ true) × (p.step2_done ≡ true) × (all_ended p.players ≡ true)

-- What holds where main is suspended.
abbrev pub Facts : Main → Pipeline → Type 0
Facts waiting p = IsBefore p
Facts recovering p = IsBefore p × (p.step3_ready ≡ true)
Facts draining p = IsBefore p × (p.step3_ready ≡ true)
Facts refreshing p = IsBefore p × (p.step3_ready ≡ true)
Facts gathering_players p =
    (p.step3_ready ≡ true)
    × (p.step2_done ≡ false)
    × (is_early p.reseeder ≡ true)
    × (p.cancel ≡ false)
    × (p.stop ≡ false)
Facts joining p = IsBeyond p × (p.cancel ≡ false) × (p.stop ≡ false)
Facts gathering_info p = IsBeyond p × (p.reseeder ≡ seeded) × (p.cancel ≡ false) × (p.stop ≡ false)
Facts gathering_teams p =
    IsBeyond p
    × (p.reseeder ≡ seeded)
    × (all_ended p.info ≡ true)
    × (p.cancel ≡ false)
    × (p.stop ≡ false)
Facts cancelling p =
    IsBeyond p
    × (p.reseeder ≡ seeded)
    × (all_ended p.info ≡ true)
    × (all_ended p.teams ≡ true)
    × (p.cancel ≡ true)
    × (p.stop ≡ false)
Facts closing p =
    IsBeyond p
    × (p.reseeder ≡ seeded)
    × (all_ended p.info ≡ true)
    × (all_ended p.teams ≡ true)
    × (is_live p.watcher ≡ false)
    × (is_live p.poller ≡ false)
    × (p.stop ≡ true)
Facts finished p =
    IsBeyond p
    × (p.reseeder ≡ seeded)
    × (all_ended p.info ≡ true)
    × (all_ended p.teams ≡ true)
    × (is_live p.watcher ≡ false)
    × (is_live p.poller ≡ false)
    × (p.display ≡ false)
Facts aborted p =
    (p.step3_ready ≡ true)
    × (p.step2_done ≡ true → all_ended p.players ≡ true)
    × (is_last p.reseeder ≡ true → p.step2_done ≡ true)

-- A raise before the player workers are gathered.
raised_early :
    (p : Pipeline)
    → p.step3_ready ≡ true
    → p.step2_done ≡ false
    → p.reseeder ≡ absent
    → Facts aborted p
raised_early p ready early none_yet = (
  ready,
  λ e. absurd (true≢false (sym e ∙ early)),
  λ e. absurd (true≢false (sym e ∙ ap is_last none_yet)),
)

pub all_ended-end_at :
    (i : ℕ) (result : Task) (tasks : List Task)
    → all_ended tasks ≡ true
    → all_ended (end_at i result tasks) ≡ true
all_ended-end_at i result [] h = refl
all_ended-end_at zero result (running ∷ rest) h = ground (arith, h)
all_ended-end_at zero result (returned n ∷ rest) h = h
all_ended-end_at zero result (failed ∷ rest) h = h
all_ended-end_at (suc i) result (t ∷ rest) h = ground (arith, all_ended-end_at i result rest)

-- The facts about a pipeline, where its main stands.
abbrev pub Holds : Pipeline → Type 0
Holds p = Facts p.main p

stays : (m : Main) (p : Pipeline) → p.main ≡ m → Facts m p → Holds p
stays m p e h = subst (λ k. Facts k p) (sym e) h

go_on-Holds :
    (next : Main) (answer : Count) (p : Pipeline)
    → Facts next (record p { main = next })
    → Facts aborted p
    → Holds (go_on next answer p)
go_on-Holds next none p h a = a
go_on-Holds next (some n) p h a = h

join_reseeder-Holds :
    (r : Reseeder) (p : Pipeline)
    → p.reseeder ≡ r
    → p.main ≡ joining
    → Facts joining p
    → Holds (join_reseeder r p)
join_reseeder-Holds seeded p e m h = (h.0, e, h.1, h.2)
join_reseeder-Holds stopped p e m h = (h.0.0, λ _. h.0.2, λ _. h.0.1)
join_reseeder-Holds absent p e m h = stays joining p m h
join_reseeder-Holds created p e m h = stays joining p m h
join_reseeder-Holds sleeping p e m h = stays joining p m h
join_reseeder-Holds seeding p e m h = stays joining p m h
join_reseeder-Holds final p e m h = stays joining p m h

module _ (workers : ℕ) where
  start_info-Holds :
      (answer : Count) (p : Pipeline) → Facts refreshing p → Holds (start_info workers answer p)
  start_info-Holds none p h = raised_early p h.1 h.0.2 h.0.1
  start_info-Holds (some n) p h = (h.1, h.0.2, refl, h.0.3, h.0.4)

  pub wake_main-Holds :
      (m : Main) (answer : Count) (p : Pipeline)
      → p.main ≡ m
      → Facts m p
      → Holds (wake_main workers m answer p)
  wake_main-Holds waiting answer p e h =
      if_ind Holds p.step3_ready (λ r. (h, r)) (λ _. stays waiting p e h)
  wake_main-Holds recovering answer p e h =
      go_on-Holds draining answer p h (raised_early p h.1 h.0.2 h.0.1)
  wake_main-Holds draining answer p e h =
      go_on-Holds refreshing answer p h (raised_early p h.1 h.0.2 h.0.1)
  wake_main-Holds refreshing answer p e h = start_info-Holds answer p h
  wake_main-Holds gathering_players answer p e h =
      if_ind Holds (all_ended p.players) (λ all. ((h.0, refl, all), h.3, h.4))
        (λ _. stays gathering_players p e h)
  wake_main-Holds joining answer p e h = join_reseeder-Holds p.reseeder p refl e h
  wake_main-Holds gathering_info answer p e h =
      if_ind Holds (all_ended p.info) (λ all. (h.0, h.1, all, h.2, h.3))
        (λ _. stays gathering_info p e h)
  wake_main-Holds gathering_teams answer p e h =
      if_ind Holds (all_ended p.teams) (λ all. (h.0, h.1, h.2, all, refl, h.4))
        (λ _. stays gathering_teams p e h)
  wake_main-Holds cancelling answer p e h =
      if_ind Holds (is_live p.watcher) (λ _. stays cancelling p e h)
        (λ no_watcher.
          if_ind Holds (is_live p.poller) (λ _. stays cancelling p e h)
            (λ no_poller. (h.0, h.1, h.2, h.3, no_watcher, no_poller, refl)))
  wake_main-Holds closing answer p e h =
      if_ind Holds p.display (λ _. stays closing p e h) (λ off. (h.0, h.1, h.2, h.3, h.4, h.5, off))
  wake_main-Holds finished answer p e h = stays finished p e h
  wake_main-Holds aborted answer p e h = stays aborted p e h
