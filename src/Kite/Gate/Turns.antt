-- ===== src/Kite/Gate/Turns.antt =====
-- internal/kite/historical_gate.go: how long a caller waits for the slot, and how far apart the
-- calls start.
use cal_spread_backend.Base.{
  ℕ, ◌+◌, ◌≤◌, ◌≡◌, refl, sym, subst, false, some, List, [], ◌∷◌, ◌++◌, length, arith, All,
  Bool-cases, inl, inr, suc, mem, remove,
}
use cal_spread_backend.Base.Filter.{Chain, All-imp}
use cal_spread_backend.Kite.Gate.{
  Waiter, Gate, Callers, queue_ahead, enqueue, acquire, release, hand_on, arrive, wake,
  release_once, arrive_all, start_gap, stamp_start, pass_slot, pass_slots, starts,
}
use cal_spread_backend.Kite.Gate.Slot.{InTurn, Held, arrive-Held, wake-Held, release_once-Held}
use mathlib.Core.List.{append_assoc}

queue_ahead-append :
    (x w : Waiter) (front back : List Waiter)
    → x.is_background ≡ false
    → w.is_background ≡ false
    → Chain InTurn (front ++ w ∷ back)
    → queue_ahead x (front ++ w ∷ back) ≡ front ++ w ∷ queue_ahead x back
unfolding queue_ahead
queue_ahead-append x w [] back e f h = ground arith
queue_ahead-append x w (y ∷ ys) back e f h =
    ground (arith, queue_ahead-append x w ys back e f h.1, early y w ys back f h)
  where
    early :
        (y w : Waiter) (ys back : List Waiter)
        → w.is_background ≡ false
        → Chain InTurn (y ∷ ys ++ w ∷ back)
        → y.is_background ≡ false
    early y w [] back f h = ground (arith, h.0.0)
    early y w (z ∷ zs) back f h = early y w zs back f (h.0.1, h.1.1)

-- Who arrives behind a waiter leaves those before it alone.
enqueue-append :
    (x w : Waiter) (front back : List Waiter)
    → InTurn w x
    → Chain InTurn (front ++ w ∷ back)
    → enqueue x (front ++ w ∷ back) ≡ front ++ w ∷ enqueue x back
unfolding enqueue
enqueue-append x w front back f h = elim (Bool-cases x.is_background) [
  | inl b ↦ ground (arith, append_assoc front (w ∷ back) (x ∷ []))
  | inr b ↦ ground (arith, queue_ahead-append x w front back, f, h)
]

-- One run has the slot, and `w` waits behind those of `front`.
pub record Awaits (w : Waiter) (front : List Waiter) (s : Callers) : Type 0 where
  pub id : ℕ
  pub back : List Waiter
  pub running : s.running ≡ id ∷ []
  pub ready : s.ready ≡ []
  pub waiting : s.gate.waiting ≡ front ++ w ∷ back
  pub held : Held s

arrive-Awaits :
    (x w : Waiter) (front : List Waiter) (s : Callers)
    → InTurn w x
    → Awaits w front s
    → Awaits w front (arrive x s)
unfolding arrive acquire
arrive-Awaits x w front s f a = record {
  id = a.id;
  back = enqueue x a.back;
  running = ground (arith, a.running, a.ready, a.held.out);
  ready = ground (arith, a.running, a.ready, a.held.out);
  waiting = ground (
    arith,
    a.running,
    a.ready,
    a.held.out,
    a.waiting,
    enqueue-append x w front a.back f (subst (Chain InTurn) a.waiting a.held.in_turn),
  );
  held = arrive-Held x s a.held;
}

arrive_all-Awaits :
    (xs : List Waiter) (w : Waiter) (front : List Waiter) (s : Callers)
    → All (InTurn w) xs
    → Awaits w front s
    → Awaits w front (arrive_all xs s)
unfolding arrive_all
arrive_all-Awaits [] w front s f a = a
arrive_all-Awaits (x ∷ xs) w front s f a =
    arrive_all-Awaits xs w front (arrive x s) f.1 (arrive-Awaits x w front s f.0 a)

-- The slot goes to the head of the queue.
record Passed (v : Waiter) (vs : List Waiter) (s : Callers) : Type 0 where
  running : s.running ≡ v.id ∷ []
  ready : s.ready ≡ []
  waiting : s.gate.waiting ≡ vs
  held : Held s

pass_slot-Passed :
    (id : ℕ) (v : Waiter) (vs : List Waiter) (s : Callers)
    → s.running ≡ id ∷ []
    → s.ready ≡ []
    → s.gate.waiting ≡ v ∷ vs
    → Held s
    → Passed v vs (pass_slot s)
pass_slot-Passed id v vs s r e w h =
    let handed = release_once id s in
    let running : handed.running ≡ [] =
      unfold release_once hand_on release mem remove in ground arith in
    let ready : handed.ready ≡ v.id ∷ [] =
      unfold release_once hand_on release mem remove in ground arith in
    let waiting : handed.gate.waiting ≡ vs =
      unfold release_once hand_on release mem remove in ground arith in
    let passed : pass_slot s ≡ wake v.id handed = unfold pass_slot in ground arith in
    record {
      running = unfold wake mem remove in ground arith;
      ready = unfold wake mem remove in ground arith;
      waiting = unfold wake mem remove in ground arith;
      held = subst Held (sym passed) (wake-Held v.id handed (release_once-Held id s h));
    }

-- A caller in the queue has the slot once it has been passed on as often as there are callers
-- before it, and once more, whatever callers arrive meanwhile; for a background caller, provided
-- that none of those is interactive.
pub pass_slots-running :
    (rounds : List (List Waiter)) (w : Waiter) (front : List Waiter) (s : Callers)
    → Awaits w front s
    → All (All (InTurn w)) rounds
    → length rounds ≡ suc (length front)
    → (pass_slots rounds s).running ≡ w.id ∷ []
unfolding pass_slots
pass_slots-running [] w front s a f e = ground arith
pass_slots-running (xs ∷ []) w [] s a f e =
    let b = arrive_all-Awaits xs w [] s f.0 a in
    (pass_slot-Passed b.id w b.back (arrive_all xs s) b.running b.ready b.waiting b.held).running
pass_slots-running (xs ∷ ys ∷ rounds) w [] s a f e = ground arith
pass_slots-running (xs ∷ rounds) w (v ∷ front) s a f e =
    let b = arrive_all-Awaits xs w (v ∷ front) s f.0 a in
    let p =
      pass_slot-Passed b.id v (front ++ w ∷ b.back) (arrive_all xs s) b.running b.ready b.waiting
        b.held in
    pass_slots-running rounds w front (pass_slot (arrive_all xs s))
      (record {
        id = v.id;
        back = b.back;
        running = p.running;
        ready = p.ready;
        waiting = p.waiting;
        held = p.held;
      })
      f.1 (omega arith)

starts-All :
    (clock last : ℕ) (calls : List (ℕ × ℕ)) (g : Gate)
    → g.last_started_at ≡ some last
    → last ≤ clock
    → All (λ (t : ℕ). last + g.min_gap ≤ t) (starts clock calls g)
unfolding starts
starts-All clock last [] g e h = tt
starts-All clock last ((while, late) ∷ calls) g e h =
    let at = clock + while + start_gap (clock + while) g + late in
    let later : last + g.min_gap ≤ at = ground arith in
    (
      later,
      All-imp (λ (t : ℕ). at + g.min_gap ≤ t) (λ (t : ℕ). last + g.min_gap ≤ t)
          (starts at calls (stamp_start at g)) (λ (t : ℕ) le. omega arith)
          (starts-All at at calls (stamp_start at g) refl (omega arith)),
    )

-- Of calls that follow one another, each starts at least the gap after every earlier one.
starts-Chain :
    (clock : ℕ) (calls : List (ℕ × ℕ)) (g : Gate)
    → Chain (λ (a b : ℕ). a + g.min_gap ≤ b) (starts clock calls g)
unfolding starts
starts-Chain clock [] g = tt
starts-Chain clock ((while, late) ∷ calls) g =
    let at = clock + while + start_gap (clock + while) g + late in
    (
      starts-All at at calls (stamp_start at g) refl (omega arith),
      starts-Chain at calls (stamp_start at g),
    )
