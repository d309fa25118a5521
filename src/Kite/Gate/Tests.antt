-- ===== src/Kite/Gate/Tests.antt =====
-- Runs of the gate of internal/kite/historical_gate.go on concrete callers.
use cal_spread_backend.Base.{◌≡◌, refl, [], ◌∷◌, ℕ_discrete, mem, remove}
use cal_spread_backend.Kite.Gate.{
  interactive, background, Callers, default_gate, waiter_of, queue_ahead, enqueue, acquire, release,
  hand_on, arrive, release_once, abandon, idle_callers, pass_slots, starts, is_waiting,
}
use cal_spread_backend.Kite.Gate.Slot.{
  Held, Reaches, stay, then_step, arrives, releases, Reaches-Held, idle_callers-Held,
}
use cal_spread_backend.Kite.Gate.Turns.{Awaits, pass_slots-running}

-- Run 1 has the slot; the background caller 2 and the interactive callers 3 and 4 come.
abbrev three_wait : Callers
three_wait = arrive (waiter_of 4 interactive) (
    arrive (waiter_of 3 interactive) (
      arrive (waiter_of 2 background)
        (arrive (waiter_of 1 interactive) (idle_callers default_gate))))

three_wait-Reaches : Reaches (idle_callers default_gate) three_wait
three_wait-Reaches =
    then_step
      (then_step
        (then_step (then_step stay (arrives (waiter_of 1 interactive)))
          (arrives (waiter_of 2 background)))
        (arrives (waiter_of 3 interactive)))
      (arrives (waiter_of 4 interactive))

three_wait-Held : Held three_wait
three_wait-Held = Reaches-Held three_wait-Reaches (idle_callers-Held default_gate refl refl)

-- Caller 3 gives up after it was handed the slot, which goes on to caller 4.
abandoned : (abandon 3 (release_once 1 three_wait)).ready ≡ 4 ∷ []
unfolding arrive acquire enqueue queue_ahead release_once hand_on release abandon is_waiting mem
    remove ℕ_discrete
abandoned = refl

Reaches-Held_example : Held (release_once 1 three_wait)
Reaches-Held_example =
    Reaches-Held (then_step three_wait-Reaches (releases 1))
      (idle_callers-Held default_gate refl refl)

three_wait-Awaits :
    Awaits
      (waiter_of 2 background)
      (waiter_of 3 interactive ∷ waiter_of 4 interactive ∷ [])
      three_wait
unfolding arrive acquire enqueue queue_ahead
three_wait-Awaits = record {
  id = 1;
  back = [];
  running = refl;
  ready = refl;
  waiting = refl;
  held = three_wait-Held;
}

pass_slots-running_example :
    (pass_slots ([] ∷ (waiter_of 5 background ∷ []) ∷ [] ∷ []) three_wait).running ≡ 2 ∷ []
pass_slots-running_example =
    pass_slots-running ([] ∷ (waiter_of 5 background ∷ []) ∷ [] ∷ []) (waiter_of 2 background)
      (waiter_of 3 interactive ∷ waiter_of 4 interactive ∷ []) three_wait three_wait-Awaits
      (tt, (((λ h. refl), tt), (tt, tt))) refl

-- The second call waits for the rest of the gap, the third comes later.
starts_run : starts 1000 ((0, 0) ∷ (100, 2) ∷ (900, 0) ∷ []) default_gate ≡ 1000 ∷ 1352 ∷ 2252 ∷ []
unfolding starts
starts_run = refl
