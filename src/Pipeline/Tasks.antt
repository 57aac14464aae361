-- ===== src/Pipeline/Tasks.antt =====
-- scripts/scrape_pipeline.py, main from its tasks on, _trigger_watcher, _player_info_reseeder,
-- _s3_total_poller and _display_loop: the tasks and the events that they share, one step for each
-- piece of a task between two awaits. An await that has nothing to wait for is a step here all the
-- same. A cancellation of main itself is left out.
use sport_crawl.Prelude.{
  ℕ, zero, suc, ◌+◌, Bool, true, false, Option, none, some, List, [], ◌∷◌, if◌then◌else◌, leb, ◌==◌,
  replicate, ◌&&◌,
}

-- A worker's task, which returns its number of jobs or raises.
pub data Task : Type 0 where
  running : Task
  returned : ℕ → Task
  failed : Task

abbrev pub is_ended : Task → Bool
is_ended running = false
is_ended (returned n) = true
is_ended failed = true

-- Whether a gather of the tasks returns.
abbrev pub all_ended : List Task → Bool
all_ended [] = true
all_ended (t ∷ rest) = is_ended t && all_ended rest

-- A task ends once.
abbrev pub end_task : Task → Task → Task
end_task running result = result
end_task (returned n) result = returned n
end_task failed result = failed

abbrev pub end_at : ℕ → Task → List Task → List Task
end_at i result [] = []
end_at zero result (t ∷ rest) = end_task t result ∷ rest
end_at (suc i) result (t ∷ rest) = t ∷ end_at i result rest

-- sum(r for r in results if isinstance(r, int)).
abbrev pub grand : List Task → ℕ
grand [] = 0
grand (running ∷ rest) = grand rest
grand (returned n ∷ rest) = n + grand rest
grand (failed ∷ rest) = grand rest

-- Where a polling task is suspended: before its loop test, or in its query; or how it ended.
pub data Poll : Type 0 where
  polling counting left broken cancelled : Poll

abbrev pub is_live : Poll → Bool
is_live polling = true
is_live counting = true
is_live left = false
is_live broken = false
is_live cancelled = false

-- Where the reseeder is suspended: before its first test, asleep, in a drain, in the last drain; or
-- how it ended.
pub data Reseeder : Type 0 where
  absent created sleeping seeding final seeded stopped : Reseeder

-- Where main is suspended, or how it ended.
pub data Main : Type 0 where
  waiting recovering draining refreshing gathering_players joining gathering_info gathering_teams
        cancelling closing finished aborted :
      Main

pub record Pipeline : Type 0 where
  pub main : Main
  pub watcher : Poll
  pub poller : Poll
  pub reseeder : Reseeder
  pub display : Bool
  pub teams : List Task
  pub players : List Task
  pub info : List Task
  pub step3_ready : Bool
  pub step2_done : Bool
  pub cancel : Bool
  pub stop : Bool
  pub s3_total : ℕ

-- The tasks as main creates them; with no player worker it sets step3_ready at once.
unfoldable pub start : ℕ → ℕ → ℕ → Pipeline
start n_teams n_players s3_total = record {
  main = waiting;
  watcher = polling;
  poller = polling;
  reseeder = absent;
  display = true;
  teams = replicate n_teams running;
  players = replicate n_players running;
  info = [];
  step3_ready = n_players == 0;
  step2_done = false;
  cancel = false;
  stop = false;
  s3_total = s3_total;
}

-- What an await answers: `none` when the query raises, and the count that it reads.
abbrev pub Count : Type 0
Count = Option ℕ

-- _trigger_watcher. After a cancel the next wake-up raises CancelledError.
abbrev pub watch_loop : Pipeline → Pipeline
watch_loop p =
    if p.step3_ready
    then record p { watcher = left }
    else if p.step2_done
    then record p { watcher = left; step3_ready = true }
    else record p { watcher = counting }

abbrev pub watch_count : ℕ → Count → Pipeline → Pipeline
watch_count trigger_count none p = record p { watcher = broken }
watch_count trigger_count (some players) p =
    if leb trigger_count players
    then record p { watcher = left; step3_ready = true }
    else record p { watcher = polling }

abbrev pub watch : ℕ → Poll → Count → Pipeline → Pipeline
watch trigger_count polling answer p =
    if p.cancel then record p { watcher = cancelled } else watch_loop p
watch trigger_count counting answer p =
    if p.cancel then record p { watcher = cancelled } else watch_count trigger_count answer p
watch trigger_count left answer p = p
watch trigger_count broken answer p = p
watch trigger_count cancelled answer p = p

-- scripts/scrape_pipeline.py, main from its tasks on, _trigger_watcher, _player_info_reseeder,
-- _s3_total_poller. Its first loop test is passed at the start, where stop_event is not set.
abbrev pub poll_count : Count → Pipeline → Pipeline
poll_count none p = record p { poller = broken }
poll_count (some n) p = record p { poller = if p.stop then left else polling; s3_total = n }

abbrev pub poll : Poll → Count → Pipeline → Pipeline
poll polling answer p =
    if p.cancel then record p { poller = cancelled } else record p { poller = counting }
poll counting answer p = if p.cancel then record p { poller = cancelled } else poll_count answer p
poll left answer p = p
poll broken answer p = p
poll cancelled answer p = p

-- The loop test of _player_info_reseeder: the last drain follows when step 2 is done.
abbrev pub reseed_loop : Pipeline → Pipeline
reseed_loop p =
    if p.step2_done then record p { reseeder = final } else record p { reseeder = sleeping }

abbrev pub reseed : Reseeder → Bool → Pipeline → Pipeline
reseed absent succeeds p = p
reseed created succeeds p = reseed_loop p
reseed sleeping succeeds p = record p { reseeder = seeding }
reseed seeding true p = reseed_loop p
reseed seeding false p = record p { reseeder = stopped }
reseed final true p = record p { reseeder = seeded }
reseed final false p = record p { reseeder = stopped }
reseed seeded succeeds p = p
reseed stopped succeeds p = p

-- `await reseeder_task` raises what the reseeder raised.
abbrev pub join_reseeder : Reseeder → Pipeline → Pipeline
join_reseeder seeded p = record p { main = gathering_info }
join_reseeder stopped p = record p { main = aborted }
join_reseeder absent p = p
join_reseeder created p = p
join_reseeder sleeping p = p
join_reseeder seeding p = p
join_reseeder final p = p

-- After the refresh of the total: the reseeder and the step-3 workers.
abbrev pub start_info : ℕ → Count → Pipeline → Pipeline
start_info workers none p = record p { main = aborted }
start_info workers (some n) p = record p {
  main = gathering_players;
  reseeder = created;
  info = replicate workers running;
  s3_total = n;
}

abbrev pub is_answered : Count → Bool
is_answered none = false
is_answered (some n) = true

abbrev pub go_on : Main → Count → Pipeline → Pipeline
go_on next answer p =
    if is_answered answer then record p { main = next } else record p { main = aborted }

abbrev pub wake_main : ℕ → Main → Count → Pipeline → Pipeline
wake_main workers waiting answer p = if p.step3_ready then record p { main = recovering } else p
wake_main workers recovering answer p = go_on draining answer p
wake_main workers draining answer p = go_on refreshing answer p
wake_main workers refreshing answer p = start_info workers answer p
wake_main workers gathering_players answer p =
    if all_ended p.players then record p { main = joining; step2_done = true } else p
wake_main workers joining answer p = join_reseeder p.reseeder p
wake_main workers gathering_info answer p =
    if all_ended p.info then record p { main = gathering_teams } else p
wake_main workers gathering_teams answer p =
    if all_ended p.teams then record p { main = cancelling; cancel = true } else p
wake_main workers cancelling answer p =
    if is_live p.watcher
    then p
    else if is_live p.poller
    then p
    else record p { main = closing; stop = true }
wake_main workers closing answer p = if p.display then p else record p { main = finished }
wake_main workers finished answer p = p
wake_main workers aborted answer p = p

pub data Event : Type 0 where
  watcher_wakes poller_wakes main_wakes : Count → Event
  reseeder_wakes : Bool → Event
  display_wakes : Event
  team_ends player_ends info_ends : ℕ → Task → Event

abbrev pub is_over : Main → Bool
is_over finished = true
is_over aborted = true
is_over _ = false

module _ (workers trigger_count : ℕ) where
  abbrev pub wake : Event → Pipeline → Pipeline
  wake (watcher_wakes answer) p = watch trigger_count p.watcher answer p
  wake (poller_wakes answer) p = poll p.poller answer p
  wake (main_wakes answer) p = wake_main workers p.main answer p
  wake (reseeder_wakes succeeds) p = reseed p.reseeder succeeds p
  wake display_wakes p = record p { display = if p.stop then false else p.display }
  wake (team_ends i result) p = record p { teams = end_at i result p.teams }
  wake (player_ends i result) p = record p { players = end_at i result p.players }
  wake (info_ends i result) p = record p { info = end_at i result p.info }

  -- The event loop closes when main is over.
  unfoldable pub step : Event → Pipeline → Pipeline
  step e p = if is_over p.main then p else wake e p

  unfoldable pub run : List Event → Pipeline → Pipeline
  run [] p = p
  run (e ∷ rest) p = run rest (step e p)
