-- ===== src/Dispatch/Delivery.antt =====
-- What the buffer promises under every interleaving of its tasks.
use mathlib.Core.List.{append_assoc, append-nil}
use sport_crawl.Prelude.{
  ℕ, false, Option, none, some, List, [], ◌∷◌, ◌≡◌, refl, sym, ◌∙◌, arith, Bool-cases, inl, inr,
  contains, count-append, replicate, contains-false, length-append,
}
use sport_crawl.Dispatch.Buffer.{
  CandidateRef, BoundedCandidateBuffer, put, put_resume, put_check, get, take_front, abort, close,
}
use sport_crawl.Dispatch.System.{
  System, Action, act, run, new_system, pick, start_put, resume, start_get, start_abort,
  start_close, after_put, after_get, wake,
}
use sport_crawl.Dispatch.Sound.{
  IsSound, SentinelsLast-append, SentinelsLast-enqueue, SentinelsLast-replicate, candidates,
  candidates-append, candidates-replicate, count-discard, length-candidates, new_system-IsSound,
  pick-count,
}

-- A call of put that has reserved its id, as if it slept, goes on to the capacity check.
put_check-IsSound :
    (ref : CandidateRef) (b : BoundedCandidateBuffer) (s : System)
    → IsSound (record s { buffer = b; asleep = ref ∷ s.asleep })
    → IsSound (after_put ref (put_check ref b) s)
unfolding put_check
put_check-IsSound ref b s h =
    let grown = candidates-append b.queue (some ref ∷ []) in
    record {
      tracked = λ j. ground (
        arith,
        h.tracked j,
        h.unique j,
        count-discard ref.job_id j b.seen,
        grown,
        count-append j (candidates b.queue) (ref.job_id ∷ []),
      );
      unique = λ j. ground (arith, h.unique j, count-discard ref.job_id j b.seen);
      in_order = ground (
        arith,
        h.in_order,
        grown,
        append_assoc s.delivered (candidates b.queue) (ref.job_id ∷ []),
      );
      bounded = ground (
        arith,
        h.bounded,
        length-candidates b.queue,
        grown,
        length-append (candidates b.queue) (ref.job_id ∷ []),
      );
      sentinels_last =
          ground (arith, h.sentinels_last, h.sentinels_closed, SentinelsLast-enqueue b.queue ref);
      sentinels_closed = λ e. ground (
        arith,
        h.sentinels_closed,
        grown,
        length-append (candidates b.queue) (ref.job_id ∷ []),
        length-append b.queue (some ref ∷ []),
      );
    }

-- The reservation of an id that is not in the dedup set.
reserve-IsSound :
    (ref : CandidateRef) (s : System)
    → contains ref.job_id s.buffer.seen ≡ false
    → IsSound s
    → IsSound (record s {
      buffer = record s.buffer { seen = ref.job_id ∷ s.buffer.seen };
      asleep = ref ∷ s.asleep;
    })
reserve-IsSound ref s fresh h =
    let absent = contains-false ref.job_id s.buffer.seen fresh in
    record {
      tracked = λ j. ground (arith, h.tracked j);
      unique = λ j. ground (arith, h.unique j);
      in_order = h.in_order;
      bounded = h.bounded;
      sentinels_last = h.sentinels_last;
      sentinels_closed = h.sentinels_closed;
    }

put-IsSound :
    (ref : CandidateRef) (s : System) → IsSound s → IsSound (after_put ref (put ref s.buffer) s)
unfolding put
put-IsSound ref s h = elim (Bool-cases s.buffer.closed) [
  | inl shut ↦ simp shut h
  | inr open' ↦ elim (Bool-cases (contains ref.job_id s.buffer.seen)) [
    | inl old ↦ simp (open', old) h
    | inr new ↦
        simp (open', new)
          (simp open' at (
            put_check-IsSound ref (record s.buffer { seen = ref.job_id ∷ s.buffer.seen }) s
              (reserve-IsSound ref s new h)))
  ]
]

wake-IsSound :
    (k : ℕ) (s : System) (o : Option (CandidateRef × List CandidateRef))
    → pick k s.asleep ≡ o
    → IsSound s
    → IsSound (wake o s)
unfolding put_resume
wake-IsSound k s none e h = h
wake-IsSound k s (some (ref, rest)) e h =
    put_check-IsSound ref s.buffer (record s { asleep = rest })
      (record {
        tracked = λ j. omega (arith, h.tracked j, pick-count j k s.asleep ref rest e);
        unique = h.unique;
        in_order = h.in_order;
        bounded = h.bounded;
        sentinels_last = h.sentinels_last;
        sentinels_closed = h.sentinels_closed;
      })

take_front-IsSound :
    (q : List (Option CandidateRef)) (s : System)
    → IsSound (record s { buffer = record s.buffer { queue = q } })
    → IsSound (after_get (take_front q (record s.buffer { queue = q })) s)
take_front-IsSound [] s h = h
take_front-IsSound (none ∷ rest) s h = record {
  tracked = h.tracked;
  unique = h.unique;
  in_order = h.in_order;
  bounded = h.bounded;
  sentinels_last = h.sentinels_last.1;
  sentinels_closed = λ e. absurd (omega (arith, h.sentinels_closed e, length-candidates rest));
}
take_front-IsSound (some ref ∷ rest) s h = record {
  tracked = λ j. ground (arith, h.tracked j, h.unique j, count-discard ref.job_id j s.buffer.seen);
  unique = λ j. ground (arith, h.unique j, count-discard ref.job_id j s.buffer.seen);
  in_order = h.in_order ∙ sym (append_assoc s.delivered (ref.job_id ∷ []) (candidates rest));
  bounded = omega (arith, h.bounded);
  sentinels_last = h.sentinels_last;
  sentinels_closed = λ e. omega (arith, h.sentinels_closed e);
}

close-IsSound : (n : ℕ) (s : System) → IsSound s → IsSound (record s { buffer = close n s.buffer })
unfolding close
close-IsSound n s h = record {
  tracked = λ j. ground (
    arith,
    h.tracked j,
    candidates-append s.buffer.queue (replicate n none),
    candidates-replicate n,
    append-nil (candidates s.buffer.queue),
  );
  unique = h.unique;
  in_order =
      rw (candidates-append s.buffer.queue (replicate n none))
        (rw (candidates-replicate n) (rw append-nil h.in_order));
  bounded =
      rw (candidates-append s.buffer.queue (replicate n none))
        (rw (candidates-replicate n) (rw append-nil h.bounded));
  sentinels_last =
      SentinelsLast-append s.buffer.queue (replicate n none) h.sentinels_last
        (SentinelsLast-replicate n) (candidates-replicate n);
  sentinels_closed = λ e. cc;
}

abort-IsSound : (s : System) → IsSound s → IsSound (record s { buffer = abort s.buffer })
unfolding abort
abort-IsSound s h = record {
  tracked = h.tracked;
  unique = h.unique;
  in_order = h.in_order;
  bounded = h.bounded;
  sentinels_last = h.sentinels_last;
  sentinels_closed = λ e. cc;
}

-- Every event of every task keeps the buffer sound.
pub act-IsSound : (a : Action) (s : System) → IsSound s → IsSound (act a s)
unfolding act get
act-IsSound (start_put ref) s h = put-IsSound ref s h
act-IsSound (resume k) s h = wake-IsSound k s (pick k s.asleep) refl h
act-IsSound start_get s h = take_front-IsSound s.buffer.queue s h
act-IsSound start_abort s h = abort-IsSound s h
act-IsSound (start_close n) s h = close-IsSound n s h

run-IsSound : (actions : List Action) (s : System) → IsSound s → IsSound (run actions s)
unfolding run
run-IsSound [] s h = h
run-IsSound (a ∷ rest) s h = run-IsSound rest (act a s) (act-IsSound a s h)

-- Whatever the order of puts, sleeps, gets, abort and closes, a new buffer stays sound: an id is
-- queued or reserved at most once and exactly when it is in the dedup set, the ids that put accepted
-- are the ids that get returned followed by the ids still queued, in the same order, at most maxsize
-- candidates are queued, and no candidate stands behind a sentinel.
pub new_buffer-IsSound :
    (maxsize : ℕ) (actions : List Action) → IsSound (run actions (new_system maxsize))
new_buffer-IsSound maxsize actions =
    run-IsSound actions (new_system maxsize) (new_system-IsSound maxsize)
