-- ===== src/Kite/Gate/Slot.antt =====
-- internal/kite/historical_gate.go: who has the slot.
use cal_spread_backend.Base.{
  ℕ, ◌+◌, ◌≤◌, ◌≡◌, ◌==◌, refl, sym, subst, Bool, true, false, List, [], ◌∷◌, mem, remove, length,
  ℕ_discrete, arith, All, Bool-cases, inl, inr, suc,
}
use cal_spread_backend.Base.Filter.{Chain, snoc-Chain}
use cal_spread_backend.Kite.Gate.{
  Waiter, Gate, Callers, idle_callers, queue_ahead, enqueue, acquire, release, drop_waiter, hand_on,
  arrive, wake, abandon, release_once, is_waiting,
}

-- No background call stands before an interactive one.
abbrev pub InTurn : Waiter → Waiter → Type 0
InTurn a b = a.is_background ≡ true → b.is_background ≡ true

abbrev slots : Bool → ℕ
slots true = 1
slots false = 0

-- A busy gate has given out one slot, a free one has none out and nobody waits for it.
pub record Held (s : Callers) : Type 0 where
  pub out : length s.running + length s.ready ≡ slots s.gate.busy
  pub calm : s.gate.busy ≡ false → s.gate.waiting ≡ []
  pub in_turn : Chain InTurn s.gate.waiting

pub data Step : Callers → Callers → Type 0 where
  arrives : {s : Callers} (w : Waiter) → Step s (arrive w s)
  wakes : {s : Callers} (id : ℕ) → Step s (wake id s)
  abandons : {s : Callers} (id : ℕ) → Step s (abandon id s)
  releases : {s : Callers} (id : ℕ) → Step s (release_once id s)

pub data Reaches : Callers → Callers → Type 0 where
  stay : {s : Callers} → Reaches s s
  then_step : {s t u : Callers} → Reaches s t → Step t u → Reaches s u

length-remove :
    (id : ℕ) (xs : List ℕ)
    → mem ℕ_discrete id xs ≡ true
    → suc (length (remove ℕ_discrete id xs)) ≡ length xs
unfolding mem remove
length-remove id [] h = ground arith
length-remove id (x ∷ xs) h = ground (arith, length-remove id xs)

queue_ahead-All :
    (P : Waiter → Type 0) (w : Waiter) (ws : List Waiter)
    → P w
    → All P ws
    → All P (queue_ahead w ws)
unfolding queue_ahead
queue_ahead-All P w [] p h = (p, tt)
queue_ahead-All P w (x ∷ xs) p h = elim (Bool-cases x.is_background) [
  | inl e ↦ simp e (p, h)
  | inr e ↦ simp e (h.0, queue_ahead-All P w xs p h.1)
]

background-All : (w : Waiter) (ws : List Waiter) → w.is_background ≡ true → All (λ x. InTurn x w) ws
background-All w [] e = tt
background-All w (x ∷ xs) e = ((λ h. e), background-All w xs e)

any_after : (w : Waiter) (ws : List Waiter) → w.is_background ≡ false → All (InTurn w) ws
any_after w [] e = tt
any_after w (x ∷ xs) e = ((λ h. ground arith), any_after w xs e)

queue_ahead-Chain :
    (w : Waiter) (ws : List Waiter)
    → w.is_background ≡ false
    → Chain InTurn ws
    → Chain InTurn (queue_ahead w ws)
unfolding queue_ahead
queue_ahead-Chain w [] e h = (tt, tt)
queue_ahead-Chain w (x ∷ xs) e h = elim (Bool-cases x.is_background) [
  | inl b ↦ subst (Chain InTurn) {x = w ∷ x ∷ xs} (ground arith) (any_after w (x ∷ xs) e, h)
  | inr b ↦
      subst (Chain InTurn) {x = x ∷ queue_ahead w xs} (ground arith)
        (queue_ahead-All (InTurn x) w xs (λ t. ground arith) h.0, queue_ahead-Chain w xs e h.1)
]

pub enqueue-Chain : (w : Waiter) (ws : List Waiter) → Chain InTurn ws → Chain InTurn (enqueue w ws)
unfolding enqueue
enqueue-Chain w ws h = elim (Bool-cases w.is_background) [
  | inl e ↦ simp e (snoc-Chain InTurn ws w h (background-All w ws e))
  | inr e ↦ simp e (queue_ahead-Chain w ws e h)
]

drop_waiter-All :
    (P : Waiter → Type 0) (id : ℕ) (ws : List Waiter) → All P ws → All P (drop_waiter id ws)
unfolding drop_waiter
drop_waiter-All P id [] h = tt
drop_waiter-All P id (w ∷ ws) h = elim (Bool-cases (w.id == id)) [
  | inl e ↦ simp e h.1
  | inr e ↦ simp e (h.0, drop_waiter-All P id ws h.1)
]

drop_waiter-Chain : (id : ℕ) (ws : List Waiter) → Chain InTurn ws → Chain InTurn (drop_waiter id ws)
unfolding drop_waiter
drop_waiter-Chain id [] h = tt
drop_waiter-Chain id (w ∷ ws) h = elim (Bool-cases (w.id == id)) [
  | inl e ↦ simp e h.1
  | inr e ↦ simp e (drop_waiter-All (InTurn w) id ws h.0, drop_waiter-Chain id ws h.1)
]

-- What `hand_on` does, once its waiters are known.
hand_on-Held :
    (ws : List Waiter) (s : Callers)
    → s.gate.waiting ≡ ws
    → length s.running + length s.ready ≡ 0
    → s.gate.busy ≡ true
    → Chain InTurn ws
    → Held (hand_on s)
unfolding hand_on release
hand_on-Held [] s w e b h = record {
  out = ground arith;
  calm = λ f. ground arith;
  in_turn = subst (Chain InTurn) {x = []} (ground arith) h;
}
hand_on-Held (v ∷ vs) s w e b h = record {
  out = ground arith;
  calm = λ f. ground arith;
  in_turn = subst (Chain InTurn) (ground arith) h.1;
}

-- With somebody in the queue or with a slot, the gate is busy.
busy_out : (s : Callers) → Held s → 1 ≤ length s.running + length s.ready → s.gate.busy ≡ true
busy_out s h e = elim (Bool-cases s.gate.busy) [ inl b ↦ b | inr b ↦ ground (arith, h.out) ]

-- An idle gate is held by nobody.
pub idle_callers-Held : (g : Gate) → g.busy ≡ false → g.waiting ≡ [] → Held (idle_callers g)
idle_callers-Held g b w = record {
  out = ground arith;
  calm = λ h. w;
  in_turn = subst (Chain InTurn) (sym w) tt;
}

pub arrive-Held : (w : Waiter) (s : Callers) → Held s → Held (arrive w s)
unfolding arrive acquire
arrive-Held w s h = elim (Bool-cases s.gate.busy) [
  | inl b ↦ record {
    out = ground (arith, h.out);
    calm = λ f. ground arith;
    in_turn = subst (Chain InTurn) (ground arith) (enqueue-Chain w s.gate.waiting h.in_turn);
  }
  | inr b ↦ record {
    out = ground (arith, h.out);
    calm = λ f. ground arith;
    in_turn = subst (Chain InTurn) (ground arith) h.in_turn;
  }
]

pub wake-Held : (id : ℕ) (s : Callers) → Held s → Held (wake id s)
unfolding wake
wake-Held id s h = elim (Bool-cases (mem ℕ_discrete id s.ready)) [
  | inl m ↦ record {
    out = ground (arith, h.out, length-remove id s.ready m);
    calm = λ f. ground (arith, h.calm);
    in_turn = subst (Chain InTurn) (ground arith) h.in_turn;
  }
  | inr m ↦ subst Held (ground arith) h
]

pub release_once-Held : (id : ℕ) (s : Callers) → Held s → Held (release_once id s)
unfolding release_once
release_once-Held id s h = elim (Bool-cases (mem ℕ_discrete id s.running)) [
  | inl m ↦ subst Held (ground arith) (
      hand_on-Held s.gate.waiting (record s { running = remove ℕ_discrete id s.running }) refl
        (ground (arith, h.out, length-remove id s.running m))
        (busy_out s h (ground (arith, length-remove id s.running m))) h.in_turn)
  | inr m ↦ subst Held (ground arith) h
]

abandon-Held : (id : ℕ) (s : Callers) → Held s → Held (abandon id s)
unfolding abandon is_waiting
abandon-Held id s h = elim (Bool-cases (is_waiting id s.gate.waiting)) [
  | inl w ↦ record {
    out = ground (arith, h.out);
    calm = λ f. ground (arith, h.calm);
    in_turn = subst (Chain InTurn) (ground arith) (drop_waiter-Chain id s.gate.waiting h.in_turn);
  }
  | inr w ↦ elim (Bool-cases (mem ℕ_discrete id s.ready)) [
    | inl m ↦ subst Held (ground arith) (
        hand_on-Held s.gate.waiting (record s { ready = remove ℕ_discrete id s.ready }) refl
          (ground (arith, h.out, length-remove id s.ready m))
          (busy_out s h (ground (arith, length-remove id s.ready m))) h.in_turn)
    | inr m ↦ subst Held (ground arith) h
  ]
]

step-Held : {s t : Callers} → Step s t → Held s → Held t
step-Held (arrives {s = s} w) h = arrive-Held w s h
step-Held (wakes {s = s} id) h = wake-Held id s h
step-Held (abandons {s = s} id) h = abandon-Held id s h
step-Held (releases {s = s} id) h = release_once-Held id s h

-- Whatever callers come, are woken, give up or let go, in whatever order, the slot is given out to
-- at most one of them at a time, exactly while the gate is busy; nobody waits for a free gate; and
-- in the queue no background call stands before an interactive one.
pub Reaches-Held : {s t : Callers} → Reaches s t → Held s → Held t
Reaches-Held stay h = h
Reaches-Held (then_step r st) h = step-Held st (Reaches-Held r h)
