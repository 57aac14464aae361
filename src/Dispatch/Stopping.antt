-- ===== src/Dispatch/Stopping.antt =====
-- infrastructure/browser/dispatch.py, class CandidateProducer: a stop that is requested.
use sport_crawl.Prelude.{
  ℕ, ◌+◌, Bool, true, false, Option, none, some, List, [], ◌∷◌, ◌&&◌, if◌then◌else◌, ◌≡◌, refl, sym,
  ap, ◌≤◌, inl, inr, arith, Bool-cases, leb, length,
}
use mathlib.Core.Path.{subst}
use sport_crawl.Dispatch.Buffer.{
  CandidateRef, BoundedCandidateBuffer, returned, put, put_resume, put_check, get, take_front,
  is_empty, abort, close,
}
use sport_crawl.Dispatch.Producer.{
  Phase, gate, peeking, sleeping, ended, putting, Producer, Answer, woken, raises, Other, gets,
  requests_stop, Moment, after_get, request_stop, interfere_all, finish, after_batch, fed, feed,
  wake, live_through, run,
}
use sport_crawl.Dispatch.Shutdown.{is_ended, either}

-- The wake-ups that a stopped producer still needs.
abbrev rank : Phase → ℕ
rank ended = 0
rank sleeping = 1
rank (putting ref rest accepted) = 1
rank peeking = 2
rank gate = 3

abbrev IsStopping : ℕ → Producer → Type 0
IsStopping k p = (p.stopped ≡ true) × (p.buffer.closed ≡ true) × (rank p.phase ≤ k)

interfere_all-IsStopping :
    (k : ℕ) (others : List Other) (p : Producer)
    → IsStopping k p
    → IsStopping k (interfere_all others p)
unfolding get request_stop abort
interfere_all-IsStopping k [] p h = h
interfere_all-IsStopping k (requests_stop ∷ rest) p h =
    interfere_all-IsStopping k rest (request_stop p) (refl, refl, h.2)
interfere_all-IsStopping k (gets ∷ rest) p h =
    interfere_all-IsStopping k rest (after_get (take_front p.buffer.queue p.buffer) p)
      (go p.buffer.queue)
  where
    go :
        (queue : List (Option CandidateRef))
        → IsStopping k (after_get (take_front queue p.buffer) p)
    go [] = h
    go (none ∷ rest) = h
    go (some ref ∷ rest) = h

module _ (has_wait : Bool) (n k : ℕ) where
  finish-IsStopping : (p : Producer) → p.stopped ≡ true → IsStopping k (finish has_wait n p)
  unfolding finish close
  finish-IsStopping p stopped = (stopped, refl, omega arith)

  after_batch-IsStopping :
      (accepted : ℕ) (p : Producer)
      → p.stopped ≡ true
      → IsStopping k (after_batch has_wait n accepted p)
  after_batch-IsStopping accepted p stopped =
      let ends : after_batch has_wait n accepted p ≡ finish has_wait n p =
        ground (arith, stopped) in
      subst (λ q. IsStopping k q) (sym ends) (finish-IsStopping p stopped)

  feed-IsStopping :
      (ids : List ℕ) (accepted : ℕ) (p : Producer)
      → p.stopped ≡ true
      → IsStopping k (feed has_wait n ids accepted p)
  unfolding feed
  feed-IsStopping [] accepted p stopped = after_batch-IsStopping accepted p stopped
  feed-IsStopping (i ∷ rest) accepted p stopped =
      let tried = put (record { job_id = i }) p.buffer in
      let ends : (if p.stopped
            then after_batch has_wait n accepted p
            else fed has_wait n tried rest accepted p (λ a q. feed has_wait n rest a q))
          ≡ after_batch has_wait n accepted p =
        ap
          (λ b.
            if b
            then after_batch has_wait n accepted p
            else fed has_wait n tried rest accepted p (λ a q. feed has_wait n rest a q))
          stopped in
      subst (λ q. IsStopping k q) (sym ends) (after_batch-IsStopping accepted p stopped)

  put_resume-closed :
      (ref : CandidateRef) (b : BoundedCandidateBuffer)
      → b.closed ≡ true
      → (put_resume ref b).0 ≡ returned false
  unfolding put_resume put_check
  put_resume-closed ref b closed = elim (Bool-cases (leb b.maxsize (length b.queue))) [
    | inl full ↦ rw (closed, full) refl
    | inr free ↦ rw (closed, free) refl
  ]

  wake-IsStopping :
      (phase : Phase) (answer : Answer) (step2_ready : Bool) (p : Producer)
      → p.phase ≡ phase
      → IsStopping (k + 1) p
      → IsStopping k (wake has_wait n phase answer step2_ready p)
  wake-IsStopping ended answer step2_ready p e h = (h.0, h.1, rw e (omega arith))
  wake-IsStopping gate raises step2_ready p e h = finish-IsStopping p h.0
  wake-IsStopping gate (woken ids) step2_ready p e h =
      let r = h.2 in (h.0, h.1, omega (arith, rw e at r))
  wake-IsStopping peeking raises step2_ready p e h = finish-IsStopping p h.0
  wake-IsStopping peeking (woken []) step2_ready p e h =
      let r = h.2 in
      either (IsStopping k) (step2_ready && is_empty p.buffer) (finish has_wait n p)
        (record p { phase = sleeping }) (finish-IsStopping p h.0)
        (h.0, h.1, omega (arith, rw e at r))
  wake-IsStopping peeking (woken (i ∷ rest)) step2_ready p e h = feed-IsStopping (i ∷ rest) 0 p h.0
  wake-IsStopping sleeping raises step2_ready p e h = finish-IsStopping p h.0
  wake-IsStopping sleeping (woken ids) step2_ready p e h =
      subst (λ q. IsStopping k q)
        (sym (
          ap
            (λ b.
              if b
              then finish has_wait n p
              else record p { phase = if has_wait then gate else peeking })
            h.0))
        (finish-IsStopping p h.0)
  wake-IsStopping (putting ref rest accepted) raises step2_ready p e h = finish-IsStopping p h.0
  wake-IsStopping (putting ref rest accepted) (woken ids) step2_ready p e h =
      let b = (put_resume ref p.buffer).1 in
      subst
        (λ state.
          IsStopping k
            (fed has_wait n (state, b) rest accepted p (λ a q. feed has_wait n rest a q)))
        (sym (put_resume-closed ref p.buffer h.1))
        (feed-IsStopping rest accepted (record p { buffer = b }) h.0)

-- A call of request_stop ends the producer: it has ended three wake-ups later, wherever it was
-- suspended, whatever its calls return, and whatever the workers do meanwhile.
pub request_stop-ended :
    (has_wait : Bool) (n : ℕ) (p : Producer) (first second third : Moment)
    → is_ended (run has_wait n (first ∷ second ∷ third ∷ []) (request_stop p)).phase ≡ true
unfolding run request_stop abort
request_stop-ended has_wait n p first second third =
    let s = request_stop p in
    let a = live_step 2 first s (refl, refl, rank_most p.phase) in
    let b = live_step 1 second (live_through has_wait n first s) a in
    let c =
      live_step 0 third (live_through has_wait n second (live_through has_wait n first s)) b in
    rank_zero
      (live_through has_wait n third
        (live_through has_wait n second (live_through has_wait n first s))).phase
      c.2
  where
    live_step :
        (k : ℕ) (m : Moment) (p : Producer)
        → IsStopping (k + 1) p
        → IsStopping k (live_through has_wait n m p)
    live_step k m p h =
        let q = interfere_all m.others p in
        wake-IsStopping has_wait n k q.phase m.answer m.step2_ready q refl
          (interfere_all-IsStopping (k + 1) m.others p h)

    rank_most : (f : Phase) → rank f ≤ 3
    rank_most ended = omega arith
    rank_most gate = omega arith
    rank_most peeking = omega arith
    rank_most sleeping = omega arith
    rank_most (putting ref rest accepted) = omega arith

    rank_zero : (f : Phase) → rank f ≤ 0 → is_ended f ≡ true
    rank_zero ended h = refl
    rank_zero gate h = absurd (omega (arith, h))
    rank_zero peeking h = absurd (omega (arith, h))
    rank_zero sleeping h = absurd (omega (arith, h))
    rank_zero (putting ref rest accepted) h = absurd (omega (arith, h))
