-- ===== src/Pipeline/Keeps.antt =====
-- scripts/scrape_pipeline.py: what the wake-ups of the tasks beside main leave as it is.
use sport_crawl.Prelude.{
  ℕ, zero, suc, Bool, true, false, none, some, List, [], ◌∷◌, ◌≡◌, refl, arith, sym, if◌then◌else◌,
  length,
}
use mathlib.Core.Path.{subst}
use sport_crawl.Pipeline.Tasks.{
  Task, all_ended, end_at, Poll, polling, counting, left, broken, cancelled, is_live, Reseeder,
  absent, created, sleeping, seeding, final, seeded, stopped, Main, waiting, Pipeline, Count, watch,
  poll, reseed,
}
use sport_crawl.Pipeline.Facts.{Facts, Holds, all_ended-end_at, is_early, is_last}

-- What the wake-ups of the other tasks leave as it is.
pub record Keeps (p q : Pipeline) : Type 0 where
  pub main : q.main ≡ p.main
  pub ready : p.step3_ready ≡ true → q.step3_ready ≡ true
  pub step2_done : q.step2_done ≡ p.step2_done
  pub reseeder_absent : p.reseeder ≡ absent → q.reseeder ≡ absent
  pub reseeder_early :
      p.step2_done ≡ false → is_early p.reseeder ≡ true → is_early q.reseeder ≡ true
  pub reseeder_last :
      (is_last p.reseeder ≡ true → p.step2_done ≡ true)
      → is_last q.reseeder ≡ true
      → q.step2_done ≡ true
  pub reseeder_seeded : p.reseeder ≡ seeded → q.reseeder ≡ seeded
  pub info_none : p.info ≡ [] → q.info ≡ []
  pub teams : all_ended p.teams ≡ true → all_ended q.teams ≡ true
  pub players : all_ended p.players ≡ true → all_ended q.players ≡ true
  pub info_count : length q.info ≡ length p.info
  pub teams_count : length q.teams ≡ length p.teams
  pub players_count : length q.players ≡ length p.players
  pub info : all_ended p.info ≡ true → all_ended q.info ≡ true
  pub watcher : is_live p.watcher ≡ false → is_live q.watcher ≡ false
  pub poller : is_live p.poller ≡ false → is_live q.poller ≡ false
  pub display : p.display ≡ false → q.display ≡ false
  pub cancel : q.cancel ≡ p.cancel
  pub stop : q.stop ≡ p.stop

pub Keeps-Facts : (m : Main) (p q : Pipeline) → Keeps p q → Facts m p → Facts m q
Keeps-Facts waiting p q k h = ground arith
Keeps-Facts m p q k h = ground arith

module _ (trigger_count : ℕ) where
  pub Keeps-watch :
      (w : Poll) (answer : Count) (p : Pipeline)
      → p.watcher ≡ w
      → Keeps p (watch trigger_count w answer p)
  Keeps-watch polling answer p e = ground arith
  Keeps-watch counting none p e = ground arith
  Keeps-watch counting (some n) p e = ground arith
  Keeps-watch left answer p e = ground arith
  Keeps-watch broken answer p e = ground arith
  Keeps-watch cancelled answer p e = ground arith

pub Keeps-poll :
    (w : Poll) (answer : Count) (p : Pipeline) → p.poller ≡ w → Keeps p (poll w answer p)
Keeps-poll polling answer p e = ground arith
Keeps-poll counting none p e = ground arith
Keeps-poll counting (some n) p e = ground arith
Keeps-poll left answer p e = ground arith
Keeps-poll broken answer p e = ground arith
Keeps-poll cancelled answer p e = ground arith

pub Keeps-reseed :
    (r : Reseeder) (b : Bool) (p : Pipeline) → p.reseeder ≡ r → Keeps p (reseed r b p)
Keeps-reseed absent b p e = ground arith
Keeps-reseed created b p e = ground arith
Keeps-reseed sleeping b p e = ground arith
Keeps-reseed seeding true p e = ground arith
Keeps-reseed seeding false p e = ground arith
Keeps-reseed final true p e = ground arith
Keeps-reseed final false p e = ground arith
Keeps-reseed seeded b p e = ground arith
Keeps-reseed stopped b p e = ground arith

pub length-end_at :
    (i : ℕ) (result : Task) (tasks : List Task) → length (end_at i result tasks) ≡ length tasks
length-end_at i result [] = refl
length-end_at zero result (t ∷ rest) = refl
length-end_at (suc i) result (t ∷ rest) = omega (arith, length-end_at i result rest)

pub end_at-nil :
    (i : ℕ) (result : Task) (tasks : List Task) → tasks ≡ [] → end_at i result tasks ≡ []
end_at-nil i result [] e = refl
end_at-nil i result (t ∷ rest) e = cc

module _ (p : Pipeline) (i : ℕ) (result : Task) where
  pub Keeps-team : Keeps p (record p { teams = end_at i result p.teams })
  Keeps-team = grind (arith, all_ended-end_at i result p.teams, length-end_at i result p.teams)

  pub Keeps-player : Keeps p (record p { players = end_at i result p.players })
  Keeps-player =
      grind (arith, all_ended-end_at i result p.players, length-end_at i result p.players)

  pub Keeps-info : Keeps p (record p { info = end_at i result p.info })
  Keeps-info = grind (
    arith,
    all_ended-end_at i result p.info,
    length-end_at i result p.info,
    end_at-nil i result p.info,
  )

pub Keeps-display :
    (p : Pipeline) → Keeps p (record p { display = if p.stop then false else p.display })
Keeps-display p = ground arith

pub Keeps-Holds : (p q : Pipeline) → Keeps p q → Holds p → Holds q
Keeps-Holds p q k h = subst (λ m. Facts m q) (sym k.main) (Keeps-Facts p.main p q k h)
