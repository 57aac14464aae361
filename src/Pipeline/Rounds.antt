-- ===== src/Pipeline/Rounds.antt =====
-- scripts/scrape_pipeline.py, main: rounds in which every task that it waits for wakes up.
use sport_crawl.Prelude.{
  ℕ, zero, suc, ◌≤◌, true, false, none, some, List, [], ◌∷◌, ◌++◌, ◌≡◌, refl, arith, if◌then◌else◌,
  sym, ◌<◌,
}
use mathlib.Core.Path.{◌∙◌, ap}
use sport_crawl.Pipeline.Tasks.{
  all_ended, Poll, polling, counting, is_live, Reseeder, absent, created, sleeping, seeding, final,
  seeded, stopped, Main, gathering_players, joining, gathering_info, gathering_teams, cancelling,
  closing, finished, join_reseeder, Pipeline, Count, watch, poll, reseed, wake_main, Event,
  watcher_wakes, poller_wakes, main_wakes, reseeder_wakes, display_wakes,
}
use sport_crawl.Pipeline.Facts.{Facts, Holds, wake_main-Holds}
use sport_crawl.Pipeline.Keeps.{
  Keeps, Keeps-Holds, Keeps-display, Keeps-poll, Keeps-reseed, Keeps-watch,
}

-- Each task that main waits for wakes up once, and then main; no query and no drain raises.
abbrev pub one_round : ℕ → List Event
one_round n =
    reseeder_wakes true
    ∷ watcher_wakes (some n)
    ∷ poller_wakes (some n)
    ∷ display_wakes
    ∷ main_wakes (some n)
    ∷ []

abbrev pub rounds : ℕ → ℕ → List Event
rounds zero n = []
rounds (suc k) n = one_round n ++ rounds k n

-- The wake-ups of main that a round of the reseeder may still delay.
abbrev pub reseeder_rank : Reseeder → ℕ
reseeder_rank absent = 9
reseeder_rank created = 6
reseeder_rank sleeping = 7
reseeder_rank seeding = 6
reseeder_rank final = 5
reseeder_rank seeded = 5
reseeder_rank stopped = 9

abbrev pub gather_rank : Reseeder → ℕ
gather_rank absent = 9
gather_rank stopped = 9
gather_rank _ = 8

-- The rounds that main still needs.
abbrev pub rank : Main → Reseeder → ℕ
rank gathering_players r = gather_rank r
rank joining r = reseeder_rank r
rank gathering_info r = 4
rank gathering_teams r = 3
rank cancelling r = 2
rank closing r = 1
rank finished r = 0
rank _ r = 9

-- The same after its own wake-up, once the other tasks have had theirs.
abbrev pub join_rank : Reseeder → ℕ
join_rank seeded = 4
join_rank r = reseeder_rank r

abbrev pub rest_rank : Main → Reseeder → ℕ
rest_rank gathering_players r = reseeder_rank r
rest_rank joining r = join_rank r
rest_rank gathering_info r = 3
rest_rank gathering_teams r = 2
rest_rank cancelling r = 1
rest_rank closing r = 0
rest_rank finished r = 0
rest_rank _ r = 9

-- The workers have ended, and main needs at most so many rounds.
pub record IsEnding (k : ℕ) (p : Pipeline) : Type 0 where
  pub holds : Holds p
  pub teams : all_ended p.teams ≡ true
  pub players : all_ended p.players ≡ true
  pub info : all_ended p.info ≡ true
  pub near : rank p.main p.reseeder ≤ k

reseed-rank :
    (k : ℕ) (m : Main) (r : Reseeder) (p : Pipeline)
    → p.main ≡ m
    → p.reseeder ≡ r
    → Facts m p
    → rank m r ≤ suc k
    → k < 8
    → rest_rank m (reseed r true p).reseeder ≤ k
reseed-rank k gathering_players created p e f h near few = ground arith
reseed-rank k gathering_players r p e f h near few = ground arith
reseed-rank k joining created p e f h near few = ground arith
reseed-rank k joining r p e f h near few = ground arith
reseed-rank k m created p e f h near few = ground arith
reseed-rank k m r p e f h near few = ground arith

-- The other tasks have had their wake-ups of the round.
pub record IsAwake (k : ℕ) (p : Pipeline) : Type 0 where
  pub holds : Holds p
  pub teams : all_ended p.teams ≡ true
  pub players : all_ended p.players ≡ true
  pub info : all_ended p.info ≡ true
  pub near : rest_rank p.main p.reseeder ≤ k
  pub watcher : p.cancel ≡ true → is_live p.watcher ≡ false
  pub poller : p.cancel ≡ true → is_live p.poller ≡ false
  pub display : p.stop ≡ true → p.display ≡ false

module _ (workers trigger_count n k : ℕ) where
  join-IsEnding :
      (r : Reseeder) (p : Pipeline)
      → p.main ≡ joining
      → p.reseeder ≡ r
      → Holds (join_reseeder r p)
      → IsAwake k p
      → rest_rank joining r ≤ k
      → k < 8
      → IsEnding k (join_reseeder r p)
  join-IsEnding seeded p e f h a near few = ground arith
  join-IsEnding r p e f h a near few = ground arith

  pub main-IsEnding :
      (m : Main) (p : Pipeline)
      → p.main ≡ m
      → Facts m p
      → IsAwake k p
      → rest_rank m p.reseeder ≤ k
      → k < 8
      → IsEnding k (wake_main workers m (some n) p)
  main-IsEnding joining p e h a near few =
      join-IsEnding p.reseeder p e refl (wake_main-Holds workers joining (some n) p e h) a near few
  main-IsEnding gathering_players p e h a near few =
      ground (arith, wake_main-Holds workers gathering_players (some n) p)
  main-IsEnding m p e h a near few = ground (arith, wake_main-Holds workers m (some n) p)

pub Keeps-trans : (p q r : Pipeline) → Keeps p q → Keeps q r → Keeps p r
Keeps-trans p q r h g = ground arith

module _ (trigger_count : ℕ) (answer : Count) where
  watch-reseeder :
      (w : Poll) (p : Pipeline) → (watch trigger_count w answer p).reseeder ≡ p.reseeder
  watch-reseeder polling p = ground arith
  watch-reseeder counting p = go answer p
    where
      go : (a : Count) (p : Pipeline) → (watch trigger_count counting a p).reseeder ≡ p.reseeder
      go none p = ground arith
      go (some n) p = ground arith
  watch-reseeder w p = refl

  watch-cancelled :
      (w : Poll) (p : Pipeline)
      → p.watcher ≡ w
      → p.cancel ≡ true
      → is_live (watch trigger_count w answer p).watcher ≡ false
  watch-cancelled polling p e h = ground arith
  watch-cancelled w p e h = ground arith

poll-reseeder : (w : Poll) (answer : Count) (p : Pipeline) → (poll w answer p).reseeder ≡ p.reseeder
poll-reseeder polling answer p = ground arith
poll-reseeder counting none p = ground arith
poll-reseeder counting (some n) p = ground arith
poll-reseeder w answer p = refl

poll-cancelled :
    (w : Poll) (answer : Count) (p : Pipeline)
    → p.poller ≡ w
    → p.cancel ≡ true
    → is_live (poll w answer p).poller ≡ false
poll-cancelled polling answer p e h = ground arith
poll-cancelled w answer p e h = ground arith

-- The wake-ups of a round before that of main.
abbrev pub others : ℕ → ℕ → Pipeline → Pipeline
others trigger_count n p =
    let p1 = reseed p.reseeder true p in
    let p2 = watch trigger_count p1.watcher (some n) p1 in
    let p3 = poll p2.poller (some n) p2 in
    record p3 { display = if p3.stop then false else p3.display }

module _ (trigger_count n k : ℕ) (p : Pipeline) where
  pub others-Keeps : Keeps p (others trigger_count n p)
  others-Keeps =
      let p1 = reseed p.reseeder true p in
      let p2 = watch trigger_count p1.watcher (some n) p1 in
      let p3 = poll p2.poller (some n) p2 in
      Keeps-trans p p1 _ (Keeps-reseed p.reseeder true p refl) (
        Keeps-trans p1 p2 _ (Keeps-watch trigger_count p1.watcher (some n) p1 refl)
          (Keeps-trans p2 p3 _ (Keeps-poll p2.poller (some n) p2 refl) (Keeps-display p3)))

  pub others-IsAwake : IsEnding (suc k) p → k < 8 → IsAwake k (others trigger_count n p)
  others-IsAwake h few = record {
    holds = Keeps-Holds p _ keeps h.holds;
    teams = keeps.teams h.teams;
    players = keeps.players h.players;
    info = keeps.info h.info;
    near =
        rw
          (
            poll-reseeder p2.poller (some n) p2,
            watch-reseeder trigger_count (some n) p1.watcher p1,
            keeps.main,
          )
          (reseed-rank k p.main p.reseeder p refl refl h.holds h.near few);
    watcher = λ c. keeps3.watcher (
        watch-cancelled trigger_count (some n) p1.watcher p1 refl
          (sym keeps2.cancel ∙ (sym keeps3.cancel ∙ c)));
    poller = λ c. poll-cancelled p2.poller (some n) p2 refl (sym keeps3.cancel ∙ c);
    display = λ s. ap (λ b. if b then false else (poll p2.poller (some n) p2).display) s;
  }
    where
      p1 : Pipeline
      p1 = reseed p.reseeder true p

      p2 : Pipeline
      p2 = watch trigger_count p1.watcher (some n) p1

      keeps : Keeps p (others trigger_count n p)
      keeps = others-Keeps

      keeps2 : Keeps p1 p2
      keeps2 = Keeps-watch trigger_count p1.watcher (some n) p1 refl

      keeps3 : Keeps p2 (poll p2.poller (some n) p2)
      keeps3 = Keeps-poll p2.poller (some n) p2 refl
