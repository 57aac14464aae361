-- ===== src/Dispatch/Producer.antt =====
-- infrastructure/browser/dispatch.py, class CandidateProducer: `run` as a coroutine over the buffer,
-- from one suspension to the next, with the workers and request_stop in between.
use sport_crawl.Prelude.{
  ℕ, ◌+◌, Bool, true, false, Option, none, some, List, [], ◌∷◌, ◌&&◌, not, ◌==◌, if◌then◌else◌,
}
use sport_crawl.Dispatch.Buffer.{
  CandidateRef, BoundedCandidateBuffer, PutState, returned, waiting, GetState, blocked, got, put,
  put_resume, get, is_empty, abort, close,
}

-- Where `run` is suspended: in wait_fn, in peek_fn, in a call of put with the ids after it and the
-- number accepted so far, in its own sleep; or it has ended.
pub data Phase : Type 0 where
  gate peeking sleeping ended : Phase
  putting : CandidateRef → List ℕ → ℕ → Phase

-- The producer and the workers at its buffer; `told` counts the sentinels that workers have taken.
pub record Producer : Type 0 where
  pub phase : Phase
  pub buffer : BoundedCandidateBuffer
  pub told : ℕ
  pub stopped : Bool
  pub active : Bool

-- What wakes the coroutine: its await is over, with the ids if it is that of peek_fn, or it raises,
-- which a cancellation does too.
pub data Answer : Type 0 where
  woken : List ℕ → Answer
  raises : Answer

pub data Other : Type 0 where
  gets requests_stop : Other

-- What happens during one suspension, whether step2 is done or absent at its end, and what ends it.
pub record Moment : Type 0 where
  pub others : List Other
  pub step2_ready : Bool
  pub answer : Answer

abbrev pub after_get : GetState × BoundedCandidateBuffer → Producer → Producer
after_get (blocked, b) p = record p { buffer = b }
after_get (got none, b) p = record p { buffer = b; told = p.told + 1 }
after_get (got (some ref), b) p = record p { buffer = b }

unfoldable pub request_stop : Producer → Producer
request_stop p = record p { stopped = true; buffer = abort p.buffer }

abbrev pub interfere : Other → Producer → Producer
interfere gets p = after_get (get p.buffer) p
interfere requests_stop p = request_stop p

abbrev pub interfere_all : List Other → Producer → Producer
interfere_all [] p = p
interfere_all (o ∷ rest) p = interfere_all rest (interfere o p)

module _ (has_wait : Bool) (n_workers : ℕ) where
  -- The `finally` block.
  unfoldable pub finish : Producer → Producer
  finish p = record p { phase = ended; active = false; buffer = close n_workers p.buffer }

  -- The head of the `while` loop.
  abbrev pub loop_head : Producer → Producer
  loop_head p =
      if p.stopped then finish p else record p { phase = if has_wait then gate else peeking }

  abbrev pub after_batch : ℕ → Producer → Producer
  after_batch accepted p =
      if accepted == 0 && not p.stopped then record p { phase = sleeping } else loop_head p

  abbrev pub fed :
      PutState × BoundedCandidateBuffer
      → List ℕ
      → ℕ
      → Producer
      → (ℕ → Producer → Producer)
      → Producer
  fed (returned true, b) rest accepted p next = next (accepted + 1) (record p { buffer = b })
  fed (returned false, b) rest accepted p next = next accepted (record p { buffer = b })
  fed (waiting ref, b) rest accepted p next = record p {
    buffer = b;
    phase = putting ref rest accepted;
  }

  -- `for job_id in ids`.
  unfoldable pub feed : List ℕ → ℕ → Producer → Producer
  feed [] accepted p = after_batch accepted p
  feed (i ∷ rest) accepted p =
      let next = λ (a : ℕ) (q : Producer). feed rest a q in
      if p.stopped
      then after_batch accepted p
      else fed (put (record { job_id = i }) p.buffer) rest accepted p next

  abbrev pub no_ids : Bool → Producer → Producer
  no_ids step2_ready p =
      if step2_ready && is_empty p.buffer then finish p else record p { phase = sleeping }

  abbrev pub peeked : List ℕ → Bool → Producer → Producer
  peeked [] step2_ready p = no_ids step2_ready p
  peeked (i ∷ rest) step2_ready p = feed (i ∷ rest) 0 p

  abbrev pub wake : Phase → Answer → Bool → Producer → Producer
  wake ended answer step2_ready p = p
  wake gate raises step2_ready p = finish p
  wake gate (woken ids) step2_ready p = record p { phase = peeking }
  wake peeking raises step2_ready p = finish p
  wake peeking (woken ids) step2_ready p = peeked ids step2_ready p
  wake sleeping raises step2_ready p = finish p
  wake sleeping (woken ids) step2_ready p = loop_head p
  wake (putting ref rest accepted) raises step2_ready p = finish p
  wake (putting ref rest accepted) (woken ids) step2_ready p =
      fed (put_resume ref p.buffer) rest accepted p (λ a q. feed rest a q)

  abbrev pub live_through : Moment → Producer → Producer
  live_through m p = let q = interfere_all m.others p in wake q.phase m.answer m.step2_ready q

  unfoldable pub run : List Moment → Producer → Producer
  run [] p = p
  run (m ∷ rest) p = run rest (live_through m p)

  -- The constructor, which refuses a second active producer, and the first steps of `run`, for a task
  -- that is not cancelled before them.
  unfoldable pub start : Bool → BoundedCandidateBuffer → Option Producer
  start is_active buffer =
      if is_active
      then none
      else some (
          loop_head
            (record { phase = peeking; buffer = buffer; told = 0; stopped = false; active = true }))
