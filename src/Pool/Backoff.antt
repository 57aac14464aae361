-- ===== src/Pool/Backoff.antt =====
-- How long a slot sleeps, and how long its backoff goes on.
use native.Mathlib.Decide.{dec_lt}
use native.Mathlib.Nat.{le_trans, pow-le-pow_left, pow-le-pow_right, zero-add}
use sport_crawl.Prelude.{
  ℕ, ◌+◌, ◌-◌, ◌*◌, ◌^◌, ◌≤◌, ◌<◌, true, false, none, some, List, [], ◌∷◌, ◌≡◌, refl, sym, ap, ◌∙◌,
  arith, length, All, ltb, leb, min, if◌then◌else◌,
}
use sport_crawl.Pool.Slot.{
  BackoffPolicy, compute, float_pow, float_limit, start_raises, closes, Round, backoff_overflow,
  again, crashed, Policies, after_try, round, slot_loop, run, SlotResult, raised, still_running,
}

-- A delay that compute gives is the jitter and at most max_delay, and the exact exponential while
-- that is below max_delay.
pub compute_bounds :
    (p : BackoffPolicy) (attempt jitter delay : ℕ)
    → compute p attempt jitter ≡ some delay
    → (jitter ≤ delay)
      × (delay ≤ p.max_delay + jitter)
      × (p.base * p.factor ^ (attempt - 1) ≤ p.max_delay
          → delay ≡ p.base * p.factor ^ (attempt - 1) + jitter)
unfolding compute float_pow
compute_bounds p attempt jitter delay h = ground arith

float_limit-le : float_limit ≤ 2 ^ 1024
unfolding float_limit
float_limit-le = omega arith

float_limit-le-pow : (f k : ℕ) → 2 ≤ f → 1024 ≤ k → float_limit ≤ f ^ k
float_limit-le-pow f k two long =
    le_trans float_limit-le (le_trans (pow-le-pow_right (omega arith) long) (pow-le-pow_left two k))

-- Once the attempt passes 1024, a policy whose factor is at least 2 gives no delay: the power
-- overflows a double and compute raises, whatever max_delay is.
pub compute_overflows :
    (p : BackoffPolicy) (attempt jitter : ℕ)
    → 2 ≤ p.factor
    → 1024 < attempt
    → compute p attempt jitter ≡ none
unfolding compute float_pow
compute_overflows p attempt jitter two late =
    let big : float_limit ≤ p.factor ^ (attempt - 1) =
      float_limit-le-pow p.factor (attempt - 1) two (omega arith) in
    let over : ltb (p.factor ^ (attempt - 1)) float_limit ≡ false = ground arith in rw over

float_limit-pow : (k : ℕ) → k < 1024 → ltb (2 ^ k) float_limit ≡ true
unfolding float_limit
float_limit-pow k few =
    let small : k ≤ 1023 = omega arith in
    let bound : 2 ^ k ≤ 2 ^ 1023 = pow-le-pow_right (omega arith) small in
    let less : 2 ^ k < float_limit = omega (arith, bound) in ground (arith, less)

-- Up to its attempt 1024, a policy whose factor is 2 gives a delay.
compute_known :
    (p : BackoffPolicy) (attempt jitter : ℕ)
    → p.factor ≡ 2
    → attempt ≤ 1024
    → (delay : ℕ) × (compute p attempt jitter ≡ some delay)
unfolding compute float_pow
compute_known p attempt jitter two few = (
  min (p.base * 2 ^ (attempt - 1)) p.max_delay + jitter,
  simp (two, float_limit-pow (attempt - 1) (omega arith)) refl,
)

-- A round in which the browser does not start, nobody cancels the slot and nothing else raises.
abbrev pub FailsToStart : Round → Type 0
FailsToStart r =
    (r.factory_raises ≡ false)
    × (r.outcome ≡ start_raises)
    × (r.sleep_cancelled ≡ false)
    × (r.ending ≡ closes)

failed_round :
    (p : Policies) (b t delay : ℕ) (r : Round)
    → FailsToStart r
    → compute p.browser_backoff (b + 1) r.jitter ≡ some delay
    → (round p b t r).1 ≡ again (b + 1) t
unfolding round after_try
failed_round p b t delay r (made, fails, awake, ends) known =
    simp (made, fails, awake, ends, known) refl

last_round :
    (p : Policies) (b t : ℕ) (r : Round)
    → FailsToStart r
    → compute p.browser_backoff (b + 1) r.jitter ≡ none
    → (round p b t r).1 ≡ crashed backoff_overflow
unfolding round after_try
last_round p b t r (made, fails, awake, ends) over = simp (made, fails, awake, ends, over) refl

-- How a slot stands after n failures in a row.
abbrev pub after_failures : ℕ → SlotResult
after_failures n = if leb n 1024 then still_running else raised backoff_overflow

after_failures-large : (n : ℕ) → 1024 < n → after_failures n ≡ raised backoff_overflow
after_failures-large n many = ground arith

failing_rounds :
    (p : Policies) (b t : ℕ) (rounds : List Round)
    → p.browser_backoff.factor ≡ 2
    → All FailsToStart rounds
    → b ≤ 1024
    → (slot_loop p b t rounds).1 ≡ after_failures (b + length rounds)
unfolding slot_loop
failing_rounds p b t [] two h few = ground arith
failing_rounds p b t (r ∷ rest) two h few = elim (dec_lt b 1024) [
  | yes less ↦
      let (delay, known) = compute_known p.browser_backoff (b + 1) r.jitter two (omega arith) in
      rw (failed_round p b t delay r h.0 known)
        (failing_rounds p (b + 1) t rest two h.1 (omega arith) ∙ ap after_failures (omega arith))
  | no most ↦
      rw
        (last_round p b t r h.0
          (compute_overflows p.browser_backoff (b + 1) r.jitter (omega arith) (omega arith)))
        (sym (after_failures-large (b + length (r ∷ rest)) (omega arith)))
]

-- A slot whose browser fails to start in every round, nothing else going wrong, with a backoff factor
-- of 2: through 1024 failures it keeps trying, and at the next one the overflow of its own backoff
-- ends it, whatever max_delay is.
pub run_raises :
    (p : Policies) (startup_jitter : ℕ) (rounds : List Round)
    → p.browser_backoff.factor ≡ 2
    → All FailsToStart rounds
    → (run p startup_jitter rounds).1
      ≡ (if leb (length rounds) 1024 then still_running else raised backoff_overflow)
unfolding run
run_raises p startup_jitter rounds two h =
    failing_rounds p 0 0 rounds two h (omega arith) ∙ ap after_failures (zero-add (length rounds))
