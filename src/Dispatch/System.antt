-- ===== src/Dispatch/System.antt =====
-- The buffer as its tasks see it: calls of put that sleep, gets, abort and close, in any order.
use sport_crawl.Prelude.{ℕ, zero, suc, ◌+◌, true, false, Option, none, some, List, [], ◌∷◌, ◌++◌}
use sport_crawl.Dispatch.Buffer.{
  CandidateRef, BoundedCandidateBuffer, PutState, returned, waiting, GetState, blocked, got,
  new_buffer, put, put_resume, get, abort, close,
}

-- One event of the event loop. `resume k` wakes the k-th sleeping call of put.
pub data Action : Type 0 where
  start_put : CandidateRef → Action
  resume : ℕ → Action
  start_get : Action
  start_abort : Action
  start_close : ℕ → Action

-- `accepted` holds the ids for which put returned True and `delivered` those that get returned, in
-- order; `sentinels` counts the workers that were told to stop.
pub record System : Type 0 where
  pub buffer : BoundedCandidateBuffer
  pub asleep : List CandidateRef
  pub accepted : List ℕ
  pub delivered : List ℕ
  pub sentinels : ℕ

abbrev pub new_system : ℕ → System
new_system maxsize = record {
  buffer = new_buffer maxsize;
  asleep = [];
  accepted = [];
  delivered = [];
  sentinels = 0;
}

abbrev pub put_back :
    CandidateRef
    → Option (CandidateRef × List CandidateRef)
    → Option (CandidateRef × List CandidateRef)
put_back x none = none
put_back x (some (y, rest)) = some (y, x ∷ rest)

-- One sleeping call is taken out of the list.
abbrev pub pick : ℕ → List CandidateRef → Option (CandidateRef × List CandidateRef)
pick k [] = none
pick zero (x ∷ xs) = some (x, xs)
pick (suc k) (x ∷ xs) = put_back x (pick k xs)

abbrev pub after_put : CandidateRef → PutState × BoundedCandidateBuffer → System → System
after_put ref (waiting r, b) s = record s { buffer = b; asleep = r ∷ s.asleep }
after_put ref (returned true, b) s = record s {
  buffer = b;
  accepted = s.accepted ++ ref.job_id ∷ [];
}
after_put ref (returned false, b) s = record s { buffer = b }

abbrev pub after_get : GetState × BoundedCandidateBuffer → System → System
after_get (blocked, b) s = record s { buffer = b }
after_get (got none, b) s = record s { buffer = b; sentinels = s.sentinels + 1 }
after_get (got (some ref), b) s = record s {
  buffer = b;
  delivered = s.delivered ++ ref.job_id ∷ [];
}

abbrev pub wake : Option (CandidateRef × List CandidateRef) → System → System
wake none s = s
wake (some (ref, rest)) s = after_put ref (put_resume ref s.buffer) (record s { asleep = rest })

unfoldable pub act : Action → System → System
act (start_put ref) s = after_put ref (put ref s.buffer) s
act (resume k) s = wake (pick k s.asleep) s
act start_get s = after_get (get s.buffer) s
act start_abort s = record s { buffer = abort s.buffer }
act (start_close n) s = record s { buffer = close n s.buffer }

unfoldable pub run : List Action → System → System
run [] s = s
run (a ∷ rest) s = run rest (act a s)
