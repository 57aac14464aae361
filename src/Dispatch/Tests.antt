-- ===== src/Dispatch/Tests.antt =====
-- The buffer at a concrete run: two ids, one of them twice, a full buffer, and shutdown.
use sport_crawl.Prelude.{ℕ, true, false, List, [], ◌∷◌, ◌≡◌, refl}
use sport_crawl.Dispatch.Buffer.{
  CandidateRef, put, put_check, put_resume, get, close, discard, new_buffer,
}
use sport_crawl.Dispatch.System.{
  Action, act, run, new_system, start_put, resume, start_get, start_close,
}
use sport_crawl.Dispatch.Producer as Producer
use sport_crawl.Dispatch.Producer.{
  Producer, Other, gets, Answer, woken, Moment, peeking, request_stop,
}
use sport_crawl.Dispatch.Shutdown.{IsAccounted, is_ended, start-IsAccounted}
use sport_crawl.Dispatch.Stopping.{request_stop-ended}
use sport_crawl.Dispatch.Sound.{IsSound}
use sport_crawl.Dispatch.Delivery.{new_buffer-IsSound}

abbrev candidate : ℕ → CandidateRef
candidate i = record { job_id = i }

abbrev script : List Action
script =
    start_put (candidate 4)
    ∷ start_put (candidate 9)
    ∷ start_put (candidate 4)
    ∷ start_get
    ∷ resume 0
    ∷ start_close 2
    ∷ start_get
    ∷ start_get
    ∷ []

new_buffer-IsSound_example : IsSound (run script (new_system 1))
new_buffer-IsSound_example = new_buffer-IsSound 1 script

script_delivers :
    ((run script (new_system 1)).delivered ≡ 4 ∷ 9 ∷ [])
    × ((run script (new_system 1)).sentinels ≡ 1)
unfolding run act put put_check put_resume get close discard
script_delivers = (refl, refl)

-- Two ids are peeked into a buffer of one place: the second put waits, and goes on once a worker gets.
abbrev moment : List Other → Answer → Moment
moment others answer = record { others = others; step2_ready = true; answer = answer }

abbrev moments : List Moment
moments =
    moment [] (woken (4 ∷ 9 ∷ []))
    ∷ moment (gets ∷ []) (woken [])
    ∷ moment (gets ∷ []) (woken [])
    ∷ []

abbrev producer : Producer
producer = record {
  phase = peeking;
  buffer = new_buffer 1;
  told = 0;
  stopped = false;
  active = true;
}

start-IsAccounted_example : IsAccounted 2 (Producer.run false 2 moments producer)
unfolding Producer.start
start-IsAccounted_example = start-IsAccounted false 2 (new_buffer 1) producer moments refl refl

request_stop-ended_example :
    is_ended (Producer.run false 2 moments (request_stop producer)).phase ≡ true
request_stop-ended_example =
    request_stop-ended false 2 producer (moment [] (woken (4 ∷ 9 ∷ [])))
      (moment (gets ∷ []) (woken [])) (moment (gets ∷ []) (woken []))
