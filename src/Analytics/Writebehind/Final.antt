-- ===== src/Analytics/Writebehind/Final.antt =====
-- internal/analytics/writebehind.go: FlushNow, the final flush at shutdown. What its surroundings do in
-- each attempt is given, and so are the cache's answers to the commands.
pub mod Others
pub mod Answers
use cal_spread_backend.Base.{
  ℕ, ◌≡◌, refl, ◌∙◌, subst, Bool, true, false, ◌&&◌, ◌||◌, none, some, List, [], ◌∷◌, String,
  is_empty, is_some, map, if◌then◌else◌, arith, Option-cases, Bool-cases, inl, inr,
}
use cal_spread_backend.Base.Maps.{keys}
use cal_spread_backend.Analytics.Writebehind.{
  Service, FlushBatch, CacheOp, queue_hash_field, queue_hash_drop, queue_plain_write, has_pending,
  begin_flush, cache_call, exec_ops, settle_flush, requeue_failed_writes,
}
use cal_spread_backend.Analytics.Writebehind.Flights.{System, begins, settles}

-- What other goroutines do while the final flush goes on: they queue writes, and a flush of theirs begins
-- or ends.
pub data Late (V : Type 0) : Type 0 where
  late_field : String → ℕ → V → ℕ → ℕ → Late V
  late_drop : String → List ℕ → ℕ → Late V
  late_plain : String → V → ℕ → Late V
  late_begin : ℕ → Late V
  late_end : Bool → Late V

-- The surroundings of an attempt: the end of the flush in flight or of the context that it waits for, the
-- time, the commands that succeed, whether the context has ended after the batch, and what others do before
-- the attempt, while it waits or sends, and then before it looks whether anything is left.
pub record Attempt (V : Type 0) : Type 0 where
  pub landed : Bool
  pub ends_waiting : Bool
  pub now : ℕ
  pub succeeds : CacheOp → Bool
  pub before : List (Late V)
  pub during : List (Late V)
  pub after : List (Late V)
  pub ended : Bool

pub data Answer : Type 0 where
  flushed : Answer
  cancelled : Answer
  incomplete : List String → List String → Answer

module _ {V : Type 0} where
  unfoldable pub answer : Service V → Answer
  answer s =
      if has_pending s then incomplete (keys s.pending_hash) (keys s.pending_plain) else flushed

module _ {V : Type 0} (marshal : V → String) where
  -- `in_flight` is a flush of the others.
  unfoldable pub act : Late V → System V → System V
  act (late_field key f v ttl max) s = record s {
    service = queue_hash_field key f v ttl max s.service;
  }
  act (late_drop key fs ttl) s = record s { service = queue_hash_drop key fs ttl s.service }
  act (late_plain key v ttl) s = record s { service = queue_plain_write key v ttl s.service }
  act (late_begin now) s = begins marshal false now s
  act (late_end ok) s = settles marshal ok s

  unfoldable pub act_all : List (Late V) → System V → System V
  act_all [] s = s
  act_all (l ∷ ls) s = act_all ls (act l s)

  -- The commands of its own batch are sent, while the others go on, and the batch is settled.
  unfoldable pub run_flush : Attempt V → FlushBatch V → System V → System V
  run_flush a b s =
      let sent : Service V × Bool =
        if is_empty b.ops
        then (s.service, false)
        else exec_ops a.now (map (λ op. (op, a.succeeds op)) b.ops) s.service in
      let others = act_all a.during (record s { service = sent.0 }) in
      record others { service = (settle_flush b sent.1 others.service).0 }

  -- The attempts one after another, and the last look at what is left.
  unfoldable pub attempts : List (Attempt V) → List (Late V) → System V → System V × Answer
  attempts [] last s = (act_all last s, answer (act_all last s).service)
  attempts (a ∷ rest) last s₀ =
      let s = act_all a.before s₀ in
      let waited = act_all a.during s in
      let begun = begin_flush marshal true a.now s.service in
      elim (s.service.flush_in_flight && is_some s.in_flight) [
        | true ↦ elim a.ends_waiting [
          | true ↦ (waited, cancelled)
          | false ↦ attempts rest last (act_all a.after (settles marshal a.landed waited))
        ]
        | false ↦ elim begun.1 [
          | none ↦ (record s { service = begun.0 }, flushed)
          | some b ↦
              let next = act_all a.after (run_flush a b (record s { service = begun.0 })) in
              elim (has_pending next.service) [
                | false ↦ (next, flushed)
                | true ↦ elim a.ended [ true ↦ (next, cancelled) | false ↦ attempts rest last next ]
              ]
        ]
      ]

  unfoldable pub flush_now : (ℕ → Attempt V) → List (Late V) → System V → System V × Answer
  flush_now env last s = attempts (env 0 ∷ env 1 ∷ env 2 ∷ env 3 ∷ []) last s
