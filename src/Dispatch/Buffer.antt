-- ===== src/Dispatch/Buffer.antt =====
-- infrastructure/browser/dispatch.py, class BoundedCandidateBuffer. `put` suspends between its
-- capacity checks, so it is a coroutine: what it does up to the next suspension or return.
use sport_crawl.Prelude.{
  ℕ, Bool, true, false, Option, none, some, List, [], ◌∷◌, ◌++◌, ◌&&◌, not, leb, ◌==◌,
  if◌then◌else◌, length, replicate, contains,
}

pub record CandidateRef : Type 0 where
  pub job_id : ℕ

-- A `none` in the queue is a sentinel. The set of ids is a list.
pub record BoundedCandidateBuffer : Type 0 where
  pub queue : List (Option CandidateRef)
  pub maxsize : ℕ
  pub seen : List ℕ
  pub closed : Bool

abbrev pub new_buffer : ℕ → BoundedCandidateBuffer
new_buffer maxsize = record { queue = []; maxsize = maxsize; seen = []; closed = false }

abbrev pub add : ℕ → List ℕ → List ℕ
add j seen = if contains j seen then seen else j ∷ seen

unfoldable pub discard : ℕ → List ℕ → List ℕ
discard j [] = []
discard j (x ∷ xs) = let rest = discard j xs in if x == j then rest else x ∷ rest

abbrev pub qsize : BoundedCandidateBuffer → ℕ
qsize b = length b.queue

unfoldable pub is_empty : BoundedCandidateBuffer → Bool
is_empty b = qsize b == 0

unfoldable pub is_exhausted : BoundedCandidateBuffer → Bool
unfolding is_empty
is_exhausted b = b.closed && is_empty b

unfoldable pub abort : BoundedCandidateBuffer → BoundedCandidateBuffer
abort b = record b { closed = true }

-- Where a call of `put` stands: it has returned, or sleeps with its id reserved.
pub data PutState : Type 0 where
  returned : Bool → PutState
  waiting : CandidateRef → PutState

-- The capacity check of the `while` loop, and what follows the loop.
unfoldable pub put_check : CandidateRef → BoundedCandidateBuffer → PutState × BoundedCandidateBuffer
put_check ref b =
    if leb b.maxsize (qsize b) && not b.closed
    then (waiting ref, b)
    else if not b.closed
    then (returned true, record b { queue = b.queue ++ some ref ∷ [] })
    else (returned false, record b { seen = discard ref.job_id b.seen })

unfoldable pub put : CandidateRef → BoundedCandidateBuffer → PutState × BoundedCandidateBuffer
put ref b =
    if b.closed
    then (returned false, b)
    else if contains ref.job_id b.seen
    then (returned false, b)
    else put_check ref (record b { seen = add ref.job_id b.seen })

-- The coroutine wakes from its sleep.
unfoldable pub put_resume :
    CandidateRef → BoundedCandidateBuffer → PutState × BoundedCandidateBuffer
put_resume = put_check

-- Where a call of `get` stands.
pub data GetState : Type 0 where
  blocked : GetState
  got : Option CandidateRef → GetState

abbrev pub take_front :
    List (Option CandidateRef) → BoundedCandidateBuffer → GetState × BoundedCandidateBuffer
take_front [] b = (blocked, b)
take_front (none ∷ rest) b = (got none, record b { queue = rest })
take_front (some ref ∷ rest) b =
    (got (some ref), record b { queue = rest; seen = discard ref.job_id b.seen })

unfoldable pub get : BoundedCandidateBuffer → GetState × BoundedCandidateBuffer
get b = take_front b.queue b

unfoldable pub close : ℕ → BoundedCandidateBuffer → BoundedCandidateBuffer
close n_workers b = record b { closed = true; queue = b.queue ++ replicate n_workers none }

unfoldable pub build_dispatch_buffer_if_enabled : Bool → ℕ → Option BoundedCandidateBuffer
build_dispatch_buffer_if_enabled enabled buffer_size =
    if not enabled then none else some (new_buffer buffer_size)
