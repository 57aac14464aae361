-- ===== src/Pool/Engines.antt =====
-- What a slot holds as it acts: at most one engine, and no semaphore while it works or sleeps.
use sport_crawl.Prelude.{
  ℕ, ◌+◌, Bool, true, false, Option, none, some, List, [], ◌∷◌, ◌++◌, ◌≡◌, refl, sym, ap, ◌∙◌,
  arith, ◌&&◌, not, if◌then◌else◌, Bool-cases, inl, inr,
}
use sport_crawl.Pool.Slot.{
  EngineOutcome, start_raises, Ending, closes, teardown_raises, close_raises, Round, Action, create,
  acquire_start, release_start, acquire_warmup, release_warmup, warmed, claim, teardown, close,
  sleep, Exit, returns, restarts, fails, cancels, try_block, Cause, factory_error, backoff_overflow,
  teardown_error, close_error, Next, again, finished, crashed, cancelled, Policies, after_try,
  on_failure, finally_block, round, slot_loop, SlotResult, processed, raised, was_cancelled,
  still_running, go_on,
}

pub record Held : Type 0 where
  pub engine : Bool
  pub start_semaphore : Bool
  pub warmup_semaphore : Bool

abbrev pub nothing : Held
nothing = record { engine = false; start_semaphore = false; warmup_semaphore = false }

abbrev pub engine_only : Held
engine_only = record { engine = true; start_semaphore = false; warmup_semaphore = false }

abbrev pub only_engine : Held → Bool
only_engine h = h.engine && not h.start_semaphore && not h.warmup_semaphore

-- The protocol: `none` is an action out of turn.
abbrev pub watch : Action → Held → Option Held
watch create h =
    if not h.engine && not h.start_semaphore && not h.warmup_semaphore
    then some engine_only
    else none
watch acquire_start h = if only_engine h then some (record h { start_semaphore = true }) else none
watch release_start h =
    if h.start_semaphore then some (record h { start_semaphore = false }) else none
watch acquire_warmup h = if only_engine h then some (record h { warmup_semaphore = true }) else none
watch release_warmup h =
    if h.warmup_semaphore then some (record h { warmup_semaphore = false }) else none
watch warmed h = if only_engine h then some h else none
watch claim h = if only_engine h then some h else none
watch teardown h = if only_engine h then some h else none
watch close h = if only_engine h then some nothing else none
watch (sleep n) h = if not h.start_semaphore && not h.warmup_semaphore then some h else none

abbrev pub bind_held : Option Held → (Held → Option Held) → Option Held
bind_held none f = none
bind_held (some h) f = f h

pub watch_all : List Action → Held → Option Held
watch_all [] h = some h
watch_all (a ∷ rest) h = bind_held (watch a h) (watch_all rest)

bind_held_assoc :
    (o : Option Held) (f g : Held → Option Held) (fg : Held → Option Held)
    → ((k : Held) → fg k ≡ bind_held (f k) g)
    → bind_held o fg ≡ bind_held (bind_held o f) g
bind_held_assoc none f g fg e = refl
bind_held_assoc (some k) f g fg e = e k

watch_all-append :
    (xs ys : List Action) (h : Held)
    → watch_all (xs ++ ys) h ≡ bind_held (watch_all xs h) (watch_all ys)
unfolding watch_all
watch_all-append [] ys h = refl
watch_all-append (a ∷ xs) ys h =
    bind_held_assoc (watch a h) (watch_all xs) (watch_all ys) (watch_all (xs ++ ys))
      (λ k. watch_all-append xs ys k)

-- One list of actions after another, from what is held to what is held.
watch_all-through :
    (xs ys : List Action) (h k l : Held)
    → watch_all xs h ≡ some k
    → watch_all ys k ≡ some l
    → watch_all (xs ++ ys) h ≡ some l
watch_all-through xs ys h k l e f =
    watch_all-append xs ys h ∙ ap (λ o. bind_held o (watch_all ys)) e ∙ f

try_block-watched : (o : EngineOutcome) → watch_all (try_block o).0 engine_only ≡ some engine_only
unfolding watch_all
try_block-watched start_raises = refl
try_block-watched _ = refl

on_failure-watched :
    (p : Policies) (r : Round) (b t : ℕ) (h : Held)
    → h ≡ engine_only
    → watch_all (on_failure p r b t).0 h ≡ some h
unfolding watch_all
on_failure-watched p r b t h e = ground arith

after_try-watched :
    (p : Policies) (r : Round) (b t : ℕ) (x : Exit)
    → watch_all (after_try p r b t x).0 engine_only ≡ some engine_only
unfolding after_try watch_all
after_try-watched p r b t (returns n) = refl
after_try-watched p r b t cancels = refl
after_try-watched p r b t fails = on_failure-watched p r b t engine_only refl
after_try-watched p r b t restarts = ground (arith, on_failure-watched p r b (t + 1) engine_only)

-- What the exception that ends a slot leaves open.
abbrev pub held_by : Cause → Held
held_by teardown_error = engine_only
held_by factory_error = nothing
held_by backoff_overflow = nothing
held_by close_error = nothing

abbrev held_after : Next → Held
held_after (crashed c) = held_by c
held_after (finished n) = nothing
held_after cancelled = nothing
held_after (again b t) = nothing

-- What a slot that stands so holds.
abbrev pub held_at : SlotResult → Held
held_at (raised c) = held_by c
held_at (processed n) = nothing
held_at was_cancelled = nothing
held_at still_running = nothing

held_after-on_failure :
    (p : Policies) (r : Round) (b t : ℕ) → held_after (on_failure p r b t).1 ≡ nothing
held_after-on_failure p r b t = ground arith

held_after-after_try :
    (p : Policies) (r : Round) (b t : ℕ) (x : Exit) → held_after (after_try p r b t x).1 ≡ nothing
unfolding after_try
held_after-after_try p r b t (returns n) = refl
held_after-after_try p r b t cancels = refl
held_after-after_try p r b t fails = held_after-on_failure p r b t
held_after-after_try p r b t restarts = ground (arith, held_after-on_failure p r b (t + 1))

finally_block-watched :
    (e : Ending) (n : Next)
    → held_after n ≡ nothing
    → watch_all (finally_block e n).0 engine_only ≡ some (held_after (finally_block e n).1)
unfolding watch_all
finally_block-watched closes n h = ap some (sym h)
finally_block-watched teardown_raises n h = refl
finally_block-watched close_raises n h = refl

round-watched :
    (p : Policies) (b t : ℕ) (r : Round)
    → watch_all (round p b t r).0 nothing ≡ some (held_after (round p b t r).1)
unfolding round
round-watched p b t r =
    let b' = if (try_block r.outcome).1 then 0 else b in
    let x = (try_block r.outcome).2 in
    let handled = after_try p r b' t x in
    elim (Bool-cases r.factory_raises) [
      | inl early ↦ simp early (unfold watch_all in refl)
      | inr made ↦ simp made (
          watch_all-through (create ∷ (try_block r.outcome).0) _ nothing engine_only _
            (unfold watch_all in try_block-watched r.outcome)
            (watch_all-through handled.0 _ engine_only engine_only _ (after_try-watched p r b' t x)
              (finally_block-watched r.ending handled.1 (held_after-after_try p r b' t x))))
    ]

go_on-watched :
    (n : Next) (loop : ℕ → ℕ → List Action × SlotResult)
    → ((b t : ℕ) → watch_all (loop b t).0 nothing ≡ some (held_at (loop b t).1))
    → watch_all (go_on n loop).0 (held_after n) ≡ some (held_at (go_on n loop).1)
unfolding watch_all
go_on-watched (finished n) loop h = refl
go_on-watched (crashed c) loop h = refl
go_on-watched cancelled loop h = refl
go_on-watched (again b t) loop h = h b t

-- Whatever fails or is cancelled in its rounds, a slot creates an engine only when it has none, takes
-- each semaphore only to release it, and claims and sleeps with no semaphore held. It has closed
-- every engine that it created when it goes round, returns, is cancelled or raises, unless the
-- teardown hook is what raises: then the slot ends with that exception and with one engine open.
pub slot_loop-watched :
    (p : Policies) (b t : ℕ) (rounds : List Round)
    → let (did, result) = slot_loop p b t rounds in watch_all did nothing ≡ some (held_at result)
unfolding slot_loop
slot_loop-watched p b t [] = unfold watch_all in refl
slot_loop-watched p b t (r ∷ rest) =
    watch_all-through (round p b t r).0 _ nothing (held_after (round p b t r).1) _
      (round-watched p b t r)
      (go_on-watched (round p b t r).1 (λ b' t'. slot_loop p b' t' rest)
        (λ b' t'. slot_loop-watched p b' t' rest))
