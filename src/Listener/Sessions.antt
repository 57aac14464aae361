-- ===== src/Listener/Sessions.antt =====
-- infrastructure/scheduler/notify_listener.py, start: the reconnects and their delays.
use sport_crawl.Prelude.{
  ℕ, zero, suc, ◌+◌, ◌-◌, ◌^◌, false, Option, none, some, List, [], ◌∷◌, ◌≡◌, ◌≢◌, ◌∙◌, eq_of_some,
  refl, ap, min, length, leb, if◌then◌else◌, arith,
}

abbrev pub backoff_steps : List ℕ
backoff_steps = 2 ∷ 4 ∷ 8 ∷ 16 ∷ 32 ∷ 60 ∷ []

-- list[i], which raises IndexError out of range.
abbrev pub get_elem? : List ℕ → ℕ → Option ℕ
get_elem? [] i = none
get_elem? (x ∷ rest) zero = some x
get_elem? (x ∷ rest) (suc i) = get_elem? rest i

unfoldable pub delay : ℕ → Option ℕ
delay backoff_index = get_elem? backoff_steps (min backoff_index (length backoff_steps - 1))

-- How the sleep after a failure ends.
pub data Sleep : Type 0 where
  slept stopped_asleep cancelled_asleep : Sleep

-- How _connect_and_listen ends: it returns only when it is stopped, and may raise; an exception may
-- meet a listener that has been stopped meanwhile.
pub data Round : Type 0 where
  stops cancelled fails_stopped : Round
  fails : Sleep → Round

pub data End : Type 0 where
  returned cancelled_end index_error still_running : End

abbrev pub after_sleep : Sleep → List ℕ × End → List ℕ × End
after_sleep slept rest = rest
after_sleep stopped_asleep rest = ([], returned)
after_sleep cancelled_asleep rest = ([], cancelled_end)

abbrev pub sleep_for : Option ℕ → List ℕ × End → List ℕ × End
sleep_for none rest = ([], index_error)
sleep_for (some d) (delays, end) = (d ∷ delays, end)

-- The `while self._running` from a back-off index, over the rounds; a list that runs out means that
-- the listener still listens.
unfoldable pub start : ℕ → List Round → List ℕ × End
start backoff_index [] = ([], still_running)
start backoff_index (stops ∷ rest) = ([], returned)
start backoff_index (cancelled ∷ rest) = ([], returned)
start backoff_index (fails_stopped ∷ rest) = ([], returned)
start backoff_index (fails s ∷ rest) =
    sleep_for (delay backoff_index) (after_sleep s (start (backoff_index + 1) rest))

-- The delays from a back-off index on: twice the one before, and 60 seconds from the sixth.
abbrev pub schedule : ℕ → ℕ → List ℕ
schedule i zero = []
schedule i (suc n) = (if leb i 4 then 2 ^ (i + 1) else 60) ∷ schedule (i + 1) n

delay_lem : (i : ℕ) → delay i ≡ some (if leb i 4 then 2 ^ (i + 1) else 60)
unfolding delay
delay_lem zero = refl
delay_lem (suc zero) = refl
delay_lem (suc (suc zero)) = refl
delay_lem (suc (suc (suc zero))) = refl
delay_lem (suc (suc (suc (suc zero)))) = refl
delay_lem (suc (suc (suc (suc (suc i))))) =
    let last : min (suc (suc (suc (suc (suc i))))) 5 ≡ 5 = omega arith in
    let past : leb (suc (suc (suc (suc (suc i))))) 4 ≡ false = ground arith in rw (last, past) refl

sleep_for-schedule :
    (i : ℕ) (o : Option ℕ) (rest : List ℕ × End)
    → o ≡ some (if leb i 4 then 2 ^ (i + 1) else 60)
    → rest.0 ≡ schedule (i + 1) (length rest.0)
    → rest.1 ≢ index_error
    → ((sleep_for o rest).0 ≡ schedule i (length (sleep_for o rest).0))
      × ((sleep_for o rest).1 ≢ index_error)
sleep_for-schedule i none rest e h ok = absurd (cc)
sleep_for-schedule i (some d) rest e h ok = (
  ap (λ x. x ∷ rest.0) (eq_of_some e) ∙ ap (λ l. (if leb i 4 then 2 ^ (i + 1) else 60) ∷ l) h,
  ok,
)

-- However the rounds end, the delays between the reconnects follow the schedule from the back-off
-- index on, 2, 4, 8, 16 and 32 seconds and then 60 each time, and the list of steps is never read
-- out of range.
pub start-schedule :
    (i : ℕ) (rounds : List Round)
    → let (delays, end) = start i rounds in
      (delays ≡ schedule i (length delays)) × (end ≢ index_error)
unfolding start
start-schedule i [] = (refl, λ e. absurd (cc))
start-schedule i (stops ∷ rest) = (refl, λ e. absurd (cc))
start-schedule i (cancelled ∷ rest) = (refl, λ e. absurd (cc))
start-schedule i (fails_stopped ∷ rest) = (refl, λ e. absurd (cc))
start-schedule i (fails slept ∷ rest) =
    let (delays, fine) = start-schedule (i + 1) rest in
    sleep_for-schedule i (delay i) (start (i + 1) rest) (delay_lem i) delays fine
start-schedule i (fails stopped_asleep ∷ rest) =
    sleep_for-schedule i (delay i) ([], returned) (delay_lem i) refl (λ e. absurd (cc))
start-schedule i (fails cancelled_asleep ∷ rest) =
    sleep_for-schedule i (delay i) ([], cancelled_end) (delay_lem i) refl (λ e. absurd (cc))
