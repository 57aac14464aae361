-- ===== src/Dispatch/Shutdown.antt =====
-- infrastructure/browser/dispatch.py, class CandidateProducer: how it ends, and what the workers are told.
use sport_crawl.Prelude.{
  ℕ, zero, suc, ◌+◌, Bool, true, false, Option, none, some, List, [], ◌∷◌, ◌++◌, ◌&&◌, not, ◌==◌,
  if◌then◌else◌, ◌≡◌, refl, eq_of_some, inl, inr, arith, Bool-cases, replicate, leb, contains,
  length,
}
use mathlib.Core.Path.{subst}
use sport_crawl.Dispatch.Buffer.{
  CandidateRef, BoundedCandidateBuffer, PutState, returned, waiting, put, put_resume, put_check,
  get, take_front, is_empty, abort, close,
}
use sport_crawl.Dispatch.Producer.{
  Phase, gate, peeking, sleeping, ended, putting, Producer, Answer, woken, raises, Other, gets,
  requests_stop, Moment, after_get, request_stop, interfere, interfere_all, finish, loop_head,
  after_batch, fed, feed, no_ids, wake, live_through, run, start,
}

-- The sentinels in a queue.
abbrev pub sentinels : List (Option CandidateRef) → ℕ
sentinels [] = 0
sentinels (none ∷ rest) = suc (sentinels rest)
sentinels (some ref ∷ rest) = sentinels rest

abbrev pub is_ended : Phase → Bool
is_ended ended = true
is_ended _ = false

sentinels-append :
    (xs ys : List (Option CandidateRef)) → sentinels (xs ++ ys) ≡ sentinels xs + sentinels ys
sentinels-append [] ys = omega arith
sentinels-append (none ∷ xs) ys = omega (arith, sentinels-append xs ys)
sentinels-append (some r ∷ xs) ys = sentinels-append xs ys

sentinels-replicate : (n : ℕ) → sentinels (replicate n none) ≡ n
sentinels-replicate zero = refl
sentinels-replicate (suc n) = omega (arith, sentinels-replicate n)

-- As long as the producer runs no worker is told to stop; once it has ended the buffer is closed, the
-- place of the active producer is free, and n_workers sentinels are in the queue or taken.
abbrev pub IsAccounted : ℕ → Producer → Type 0
IsAccounted n p =
    (p.active ≡ not (is_ended p.phase))
    × (sentinels p.buffer.queue + p.told ≡ (if is_ended p.phase then n else 0))
    × ((if is_ended p.phase then p.buffer.closed else true) ≡ true)

-- The buffer during a run.
abbrev IsRunning : Producer → Type 0
IsRunning p = (p.active ≡ true) × (sentinels p.buffer.queue + p.told ≡ 0)

interfere-IsAccounted :
    (n : ℕ) (o : Other) (p : Producer) → IsAccounted n p → IsAccounted n (interfere o p)
unfolding get request_stop abort
interfere-IsAccounted n requests_stop p h = ground arith
interfere-IsAccounted n gets p h = go p.buffer.queue refl
  where
    go :
        (queue : List (Option CandidateRef))
        → p.buffer.queue ≡ queue
        → IsAccounted n (after_get (take_front queue p.buffer) p)
    go [] e = h
    go (none ∷ rest) e = let c = h.1 in (h.0, omega (arith, rw e at c), h.2)
    go (some ref ∷ rest) e = let c = h.1 in (h.0, rw e at c, h.2)

interfere_all-IsAccounted :
    (n : ℕ) (others : List Other) (p : Producer)
    → IsAccounted n p
    → IsAccounted n (interfere_all others p)
interfere_all-IsAccounted n [] p h = h
interfere_all-IsAccounted n (o ∷ rest) p h =
    interfere_all-IsAccounted n rest (interfere o p) (interfere-IsAccounted n o p h)

put_check-queue :
    (ref : CandidateRef) (b : BoundedCandidateBuffer)
    → sentinels (put_check ref b).1.queue ≡ sentinels b.queue
unfolding put_check
put_check-queue ref b = elim (Bool-cases b.closed) [
  | inl closed ↦ elim (Bool-cases (leb b.maxsize (length b.queue))) [
    | inl full ↦ rw (closed, full) refl
    | inr free ↦ rw (closed, free) refl
  ]
  | inr opened ↦ elim (Bool-cases (leb b.maxsize (length b.queue))) [
    | inl full ↦ rw (opened, full) refl
    | inr free ↦
        rw (opened, free) (let s = sentinels-append b.queue (some ref ∷ []) in omega (arith, s))
  ]
]

put-queue :
    (ref : CandidateRef) (b : BoundedCandidateBuffer)
    → sentinels (put ref b).1.queue ≡ sentinels b.queue
unfolding put
put-queue ref b = elim (Bool-cases b.closed) [
  | inl closed ↦ rw closed refl
  | inr opened ↦ elim (Bool-cases (contains ref.job_id b.seen)) [
    | inl there ↦ rw (opened, there) refl
    | inr new ↦ rw (opened, new) (put_check-queue ref _)
  ]
]

-- Both branches of a test.
pub either {ℓ κ} :
    {A : Type ℓ} (P : A → Type κ) (b : Bool) (x y : A) → P x → P y → P (if b then x else y)
either P true x y px py = px
either P false x y px py = py

module _ (has_wait : Bool) (n : ℕ) where
  finish-IsAccounted : (p : Producer) → IsRunning p → IsAccounted n (finish has_wait n p)
  unfolding finish close
  finish-IsAccounted p (active, none_told) =
      let s = sentinels-append p.buffer.queue (replicate n none) in
      let r = sentinels-replicate n in (refl, omega (arith, s, r, none_told), refl)

  loop_head-IsAccounted : (p : Producer) → IsRunning p → IsAccounted n (loop_head has_wait n p)
  loop_head-IsAccounted p h =
      either (IsAccounted n) p.stopped (finish has_wait n p)
        (record p { phase = if has_wait then gate else peeking }) (finish-IsAccounted p h)
        (either (λ f. IsAccounted n (record p { phase = f })) has_wait gate peeking (h.0, h.1, refl)
          (h.0, h.1, refl))

  after_batch-IsAccounted :
      (accepted : ℕ) (p : Producer)
      → IsRunning p
      → IsAccounted n (after_batch has_wait n accepted p)
  after_batch-IsAccounted accepted p h =
      either (IsAccounted n) (accepted == 0 && not p.stopped) (record p { phase = sleeping })
        (loop_head has_wait n p) (h.0, h.1, refl) (loop_head-IsAccounted p h)

  fed-IsAccounted :
      (state : PutState) (b : BoundedCandidateBuffer) (rest : List ℕ) (accepted : ℕ) (p : Producer)
      (next : ℕ → Producer → Producer)
      → IsRunning p
      → sentinels b.queue ≡ sentinels p.buffer.queue
      → ((a : ℕ) (q : Producer) → IsRunning q → IsAccounted n (next a q))
      → IsAccounted n (fed has_wait n (state, b) rest accepted p next)
  fed-IsAccounted (returned true) b rest accepted p next h same keeps =
      keeps (accepted + 1) (record p { buffer = b }) (h.0, let s = h.1 in omega (arith, s, same))
  fed-IsAccounted (returned false) b rest accepted p next h same keeps =
      keeps accepted (record p { buffer = b }) (h.0, let s = h.1 in omega (arith, s, same))
  fed-IsAccounted (waiting ref) b rest accepted p next h same keeps =
      (h.0, (let s = h.1 in omega (arith, s, same)), refl)

  feed-IsAccounted :
      (ids : List ℕ) (accepted : ℕ) (p : Producer)
      → IsRunning p
      → IsAccounted n (feed has_wait n ids accepted p)
  unfolding feed
  feed-IsAccounted [] accepted p h = after_batch-IsAccounted accepted p h
  feed-IsAccounted (i ∷ rest) accepted p h =
      let tried = put (record { job_id = i }) p.buffer in
      either (IsAccounted n) p.stopped (after_batch has_wait n accepted p)
        (fed has_wait n tried rest accepted p (λ a q. feed has_wait n rest a q))
        (after_batch-IsAccounted accepted p h)
        (fed-IsAccounted tried.0 tried.1 rest accepted p (λ a q. feed has_wait n rest a q) h
          (put-queue (record { job_id = i }) p.buffer) (λ a q r. feed-IsAccounted rest a q r))

  no_ids-IsAccounted :
      (step2_ready : Bool) (p : Producer)
      → IsRunning p
      → IsAccounted n (no_ids has_wait n step2_ready p)
  no_ids-IsAccounted step2_ready p h =
      either (IsAccounted n) (step2_ready && is_empty p.buffer) (finish has_wait n p)
        (record p { phase = sleeping }) (finish-IsAccounted p h) (h.0, h.1, refl)

  wake-IsAccounted :
      (phase : Phase) (answer : Answer) (step2_ready : Bool) (p : Producer)
      → p.phase ≡ phase
      → IsAccounted n p
      → IsAccounted n (wake has_wait n phase answer step2_ready p)
  unfolding put_resume
  wake-IsAccounted ended answer step2_ready p e h = h
  wake-IsAccounted gate raises step2_ready p e h = finish-IsAccounted p (ground arith)
  wake-IsAccounted gate (woken ids) step2_ready p e h = ground arith
  wake-IsAccounted peeking raises step2_ready p e h = finish-IsAccounted p (ground arith)
  wake-IsAccounted peeking (woken []) step2_ready p e h =
      no_ids-IsAccounted step2_ready p (ground arith)
  wake-IsAccounted peeking (woken (i ∷ rest)) step2_ready p e h =
      feed-IsAccounted (i ∷ rest) 0 p (ground arith)
  wake-IsAccounted sleeping raises step2_ready p e h = finish-IsAccounted p (ground arith)
  wake-IsAccounted sleeping (woken ids) step2_ready p e h = loop_head-IsAccounted p (ground arith)
  wake-IsAccounted (putting ref rest accepted) raises step2_ready p e h =
      finish-IsAccounted p (ground arith)
  wake-IsAccounted (putting ref rest accepted) (woken ids) step2_ready p e h =
      fed-IsAccounted (put_resume ref p.buffer).0 (put_resume ref p.buffer).1 rest accepted p
        (λ a q. feed has_wait n rest a q) (ground arith) (put_check-queue ref p.buffer)
        (λ a q r. feed-IsAccounted rest a q r)

  run-IsAccounted :
      (moments : List Moment) (p : Producer)
      → IsAccounted n p
      → IsAccounted n (run has_wait n moments p)
  unfolding run
  run-IsAccounted [] p h = h
  run-IsAccounted (m ∷ rest) p h =
      let q = interfere_all m.others p in
      run-IsAccounted rest (live_through has_wait n m p) (
        wake-IsAccounted q.phase m.answer m.step2_ready q refl
          (interfere_all-IsAccounted n m.others p h))

-- A producer over a buffer without sentinels is the only active one and tells no worker to stop while
-- it runs; when it has ended, by an empty queue, a request, an exception or a cancellation, the buffer
-- is closed, another producer may start, and exactly n_workers sentinels are queued or taken.
pub start-IsAccounted :
    (has_wait : Bool) (n : ℕ) (buffer : BoundedCandidateBuffer) (p : Producer)
    (moments : List Moment)
    → sentinels buffer.queue ≡ 0
    → start has_wait n false buffer ≡ some p
    → IsAccounted n (run has_wait n moments p)
unfolding start
start-IsAccounted has_wait n buffer p moments empty started = run-IsAccounted has_wait n moments p (
    subst (λ q. IsAccounted n q) (eq_of_some started)
      (loop_head-IsAccounted has_wait n
        (record { phase = peeking; buffer = buffer; told = 0; stopped = false; active = true })
        (refl, omega (arith, empty))))
