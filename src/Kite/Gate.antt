-- ===== src/Kite/Gate.antt =====
-- internal/kite/historical_gate.go: one slot for the requests of historical candles. A caller is
-- its number. Times are milliseconds; the zero time of a gate that has started nothing is `none`.
pub mod Slot
pub mod Turns
pub mod Tests
use cal_spread_backend.Base.{
  ℕ, ◌+◌, ◌-◌, ◌≡◌, Bool, true, false, Option, none, some, List, [], ◌∷◌, ◌++◌, ◌==◌, mem, remove,
  if◌then◌else◌, length, ℕ_discrete,
}

-- Only "background" is background.
pub data Priority : Type 0 where
  interactive : Priority
  background : Priority

pub record Waiter : Type 0 where
  pub id : ℕ
  pub is_background : Bool

pub record Gate : Type 0 where
  pub min_gap : ℕ
  pub slot_timeout : ℕ
  pub busy : Bool
  pub last_started_at : Option ℕ
  pub waiting : List Waiter

abbrev historical_min_gap : ℕ
historical_min_gap = 350

abbrev historical_slot_timeout : ℕ
historical_slot_timeout = 20000

abbrev pub new_historical_gate : ℕ → ℕ → Gate
new_historical_gate min_gap slot_timeout = record {
  min_gap = min_gap;
  slot_timeout = slot_timeout;
  busy = false;
  last_started_at = none;
  waiting = [];
}

abbrev pub default_gate : Gate
default_gate = new_historical_gate historical_min_gap historical_slot_timeout

abbrev pub queued : Gate → ℕ
queued g = length g.waiting

abbrev pub waiter_of : ℕ → Priority → Waiter
waiter_of id interactive = record { id = id; is_background = false }
waiter_of id background = record { id = id; is_background = true }

-- Ahead of every queued background call, behind the interactive ones.
unfoldable pub queue_ahead : Waiter → List Waiter → List Waiter
queue_ahead w [] = w ∷ []
queue_ahead w (x ∷ xs) = if x.is_background then w ∷ x ∷ xs else x ∷ queue_ahead w xs

unfoldable pub enqueue : Waiter → List Waiter → List Waiter
enqueue w ws = if w.is_background then ws ++ w ∷ [] else queue_ahead w ws

-- The first half of `acquire`: whether the caller has the slot at once.
unfoldable pub acquire : Waiter → Gate → Gate × Bool
acquire w g =
    if g.busy
    then (record g { waiting = enqueue w g.waiting }, false)
    else (record g { busy = true }, true)

-- The waiter whose channel is closed, if there is one.
unfoldable pub release : Gate → Gate × Option ℕ
release g = elim g.waiting [
  | [] ↦ (record g { busy = false }, none)
  | w ∷ ws ↦ (record g { waiting = ws }, some w.id)
]

unfoldable pub is_waiting : ℕ → List Waiter → Bool
is_waiting id [] = false
is_waiting id (w ∷ ws) = if w.id == id then true else is_waiting id ws

unfoldable pub drop_waiter : ℕ → List Waiter → List Waiter
drop_waiter id [] = []
drop_waiter id (w ∷ ws) = if w.id == id then ws else w ∷ drop_waiter id ws

-- How long `Run` sleeps before it starts its call: nothing where the gap is over.
abbrev pub start_gap : ℕ → Gate → ℕ
start_gap now g = elim g.last_started_at [ none ↦ 0 | some last ↦ g.min_gap - (now - last) ]

abbrev pub stamp_start : ℕ → Gate → Gate
stamp_start now g = record g { last_started_at = some now }

-- The gate with its callers: those whose channel is closed and who have not taken the slot yet, and
-- the runs which have the slot and have not released it.
pub record Callers : Type 0 where
  pub gate : Gate
  pub ready : List ℕ
  pub running : List ℕ

abbrev pub idle_callers : Gate → Callers
idle_callers g = record { gate = g; ready = []; running = [] }

unfoldable pub hand_on : Callers → Callers
hand_on s =
    let released = release s.gate in
    elim released.1 [
      | none ↦ record s { gate = released.0 }
      | some id ↦ record s { gate = released.0; ready = id ∷ s.ready }
    ]

-- `Run` arrives.
unfoldable pub arrive : Waiter → Callers → Callers
arrive w s =
    let acquired = acquire w s.gate in
    if acquired.1
    then record s { gate = acquired.0; running = w.id ∷ s.running }
    else record s { gate = acquired.0 }

-- The second half of `acquire`, when the channel is closed.
unfoldable pub wake : ℕ → Callers → Callers
wake id s =
    if mem ℕ_discrete id s.ready
    then record s { ready = remove ℕ_discrete id s.ready; running = id ∷ s.running }
    else s

-- The second half of `acquire`, when the context is cancelled.
unfoldable pub abandon : ℕ → Callers → Callers
abandon id s =
    if is_waiting id s.gate.waiting
    then record s { gate = record s.gate { waiting = drop_waiter id s.gate.waiting } }
    else if mem ℕ_discrete id s.ready
    then hand_on (record s { ready = remove ℕ_discrete id s.ready })
    else s

-- `releaseOnce`, by the watchdog or by the end of the call.
unfoldable pub release_once : ℕ → Callers → Callers
release_once id s =
    if mem ℕ_discrete id s.running
    then hand_on (record s { running = remove ℕ_discrete id s.running })
    else s

-- Several callers arrive, one after another.
unfoldable pub arrive_all : List Waiter → Callers → Callers
arrive_all [] s = s
arrive_all (w ∷ ws) s = arrive_all ws (arrive w s)

-- The run which has the slot lets it go, and the waiter it is handed to wakes.
unfoldable pub pass_slot : Callers → Callers
pass_slot s = elim s.running [
  | [] ↦ s
  | id ∷ ids ↦
      let released = release_once id s in
      elim released.ready [ [] ↦ released | next ∷ others ↦ wake next released ]
]

-- The slot is passed on once for each list, after the callers of the list have arrived.
unfoldable pub pass_slots : List (List Waiter) → Callers → Callers
pass_slots [] s = s
pass_slots (ws ∷ rounds) s = pass_slots rounds (pass_slot (arrive_all ws s))

-- The starts of calls that follow one another: each comes to `Run` a while after the start before
-- it, and its timer fires late by some time.
unfoldable pub starts : ℕ → List (ℕ × ℕ) → Gate → List ℕ
starts clock [] g = []
starts clock ((while, late) ∷ calls) g =
    let at = clock + while + start_gap (clock + while) g + late in
    at ∷ starts at calls (stamp_start at g)
