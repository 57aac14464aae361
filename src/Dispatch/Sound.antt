-- ===== src/Dispatch/Sound.antt =====
-- infrastructure/browser/dispatch.py: what the buffer keeps, and the counts that it is stated with.
use sport_crawl.Prelude.{
  ℕ, zero, suc, ◌+◌, ◌≤◌, false, Option, none, some, List, [], ◌∷◌, ◌++◌, ◌≡◌, refl, ap, arith, map,
  length, count, replicate, ◌==◌, if◌then◌else◌,
}
use sport_crawl.Dispatch.Buffer.{CandidateRef, discard}
use sport_crawl.Dispatch.System.{System, new_system, pick, put_back}

-- The ids of the candidates in a queue, and of the sleeping calls.
abbrev pub candidates : List (Option CandidateRef) → List ℕ
candidates [] = []
candidates (none ∷ rest) = candidates rest
candidates (some ref ∷ rest) = ref.job_id ∷ candidates rest

abbrev pub reserved : List CandidateRef → List ℕ
reserved = map (λ (r : CandidateRef). r.job_id)

-- Every sentinel stands behind every candidate.
abbrev pub SentinelsLast : List (Option CandidateRef) → Type 0
SentinelsLast [] = Unit
SentinelsLast (some ref ∷ rest) = SentinelsLast rest
SentinelsLast (none ∷ rest) = (candidates rest ≡ []) × SentinelsLast rest

pub count-discard :
    (j k : ℕ) (xs : List ℕ) → count k (discard j xs) ≡ (if j == k then 0 else count k xs)
unfolding discard
count-discard j k [] = ground arith
count-discard j k (x ∷ xs) = ground (arith, count-discard j k xs)

pub candidates-append :
    (xs ys : List (Option CandidateRef)) → candidates (xs ++ ys) ≡ candidates xs ++ candidates ys
candidates-append [] ys = refl
candidates-append (none ∷ xs) ys = candidates-append xs ys
candidates-append (some r ∷ xs) ys = ap (λ l. r.job_id ∷ l) (candidates-append xs ys)

pub candidates-replicate : (n : ℕ) → candidates (replicate n none) ≡ []
candidates-replicate zero = refl
candidates-replicate (suc n) = candidates-replicate n

pub length-candidates : (xs : List (Option CandidateRef)) → length (candidates xs) ≤ length xs
length-candidates [] = omega arith
length-candidates (none ∷ xs) = omega (arith, length-candidates xs)
length-candidates (some r ∷ xs) = omega (arith, length-candidates xs)

pub SentinelsLast-replicate : (n : ℕ) → SentinelsLast (replicate n none)
SentinelsLast-replicate zero = tt
SentinelsLast-replicate (suc n) = (candidates-replicate n, SentinelsLast-replicate n)

-- Sentinels go behind anything; a candidate goes only behind candidates.
pub SentinelsLast-append :
    (xs ys : List (Option CandidateRef))
    → SentinelsLast xs
    → SentinelsLast ys
    → candidates ys ≡ []
    → SentinelsLast (xs ++ ys)
SentinelsLast-append [] ys h k e = k
SentinelsLast-append (none ∷ xs) ys h k e =
    (rw (candidates-append xs ys) (rw (h.0, e)), SentinelsLast-append xs ys h.1 k e)
SentinelsLast-append (some r ∷ xs) ys h k e = SentinelsLast-append xs ys h k e

pub SentinelsLast-enqueue :
    (q : List (Option CandidateRef)) (ref : CandidateRef)
    → length (candidates q) ≡ length q
    → SentinelsLast (q ++ some ref ∷ [])
SentinelsLast-enqueue [] ref h = tt
SentinelsLast-enqueue (none ∷ q) ref h = absurd (omega (arith, length-candidates q))
SentinelsLast-enqueue (some r ∷ q) ref h = SentinelsLast-enqueue q ref (omega arith)

-- What put_back took apart.
put_back-inv :
    (x : CandidateRef) (o : Option (CandidateRef × List CandidateRef)) (r : CandidateRef)
    (rest : List CandidateRef)
    → put_back x o ≡ some (r, rest)
    → (inner : List CandidateRef) × (o ≡ some (r, inner)) × (rest ≡ x ∷ inner)
put_back-inv x none r rest h = absurd (cc)
put_back-inv x (some (y, inner)) r rest h = (inner, ground arith, ground arith)

pub pick-count :
    (j k : ℕ) (xs : List CandidateRef) (r : CandidateRef) (rest : List CandidateRef)
    → pick k xs ≡ some (r, rest)
    → count j (reserved xs) ≡ count j (reserved (r ∷ rest))
pick-count j k [] r rest h = cc
pick-count j zero (x ∷ xs) r rest h = ground arith
pick-count j (suc k) (x ∷ xs) r rest h =
    let (inner, e, e') = put_back-inv x (pick k xs) r rest h in
    rw e' (ground (arith, pick-count j k xs r inner e))

-- What holds between any two events.
pub record IsSound (s : System) : Type 0 where
  -- an id is in the dedup set as often as it is queued or reserved by a sleeping call: at most once
  pub tracked :
      (j : ℕ)
      → count j s.buffer.seen ≡ count j (candidates s.buffer.queue) + count j (reserved s.asleep)
  pub unique : (j : ℕ) → count j s.buffer.seen ≤ 1
  -- what was accepted is what was delivered, followed by what is queued, in that order
  pub in_order : s.accepted ≡ s.delivered ++ candidates s.buffer.queue
  pub bounded : length (candidates s.buffer.queue) ≤ s.buffer.maxsize
  pub sentinels_last : SentinelsLast s.buffer.queue
  pub sentinels_closed :
      s.buffer.closed ≡ false → length (candidates s.buffer.queue) ≡ length s.buffer.queue

pub new_system-IsSound : (maxsize : ℕ) → IsSound (new_system maxsize)
new_system-IsSound maxsize = record {
  tracked = λ j. omega arith;
  unique = λ j. omega arith;
  in_order = refl;
  bounded = omega arith;
  sentinels_last = tt;
  sentinels_closed = λ h. refl;
}
