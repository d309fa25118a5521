-- ===== src/Analytics/Writebehind/Final/Others.antt =====
-- internal/analytics/writebehind.go: what the other goroutines do while FlushNow goes on, and the flag.
use cal_spread_backend.Base.{
  ℕ, ◌≡◌, refl, ◌∙◌, ◌⊎◌, Bool, true, false, none, List, [], ◌∷◌, String, is_empty, is_some, map,
  if◌then◌else◌, arith, Option-cases, inl, inr,
}
use cal_spread_backend.Analytics.Writebehind.{
  Service, FlushBatch, CacheOp, queue_hash_field, queue_hash_drop, queue_plain_write, begin_flush,
  cache_call, exec_ops, settle_flush, requeue_failed_writes,
}
use cal_spread_backend.Analytics.Writebehind.Flights.{System}
use cal_spread_backend.Analytics.Writebehind.Final.{
  Late, late_field, late_drop, late_plain, late_begin, late_end, Attempt, act, act_all, run_flush,
}

-- The cache is enabled, and the flag tells whether a flush is in flight.
pub record Ready {V : Type 0} (s : System V) : Type 0 where
  pub enabled : s.service.cache_enabled ≡ true
  pub single : s.service.flush_in_flight ≡ is_some s.in_flight

-- While the own batch is in flight, the flag is set and no other flush is in flight.
pub record Sending {V : Type 0} (s : System V) : Type 0 where
  pub enabled : s.service.cache_enabled ≡ true
  pub flag : s.service.flush_in_flight ≡ true
  pub alone : s.in_flight ≡ none

-- Whether the others begin a flush.
abbrev pub some_begin : {V : Type 0} → List (Late V) → Bool
some_begin [] = false
some_begin (late_begin now ∷ ls) = true
some_begin (late_field key f v ttl max ∷ ls) = some_begin ls
some_begin (late_drop key fs ttl ∷ ls) = some_begin ls
some_begin (late_plain key v ttl ∷ ls) = some_begin ls
some_begin (late_end ok ∷ ls) = some_begin ls

module _ {V : Type 0} where
  exec_ops_lem :
      (now : ℕ) (ops : List (CacheOp × Bool)) (s : Service V)
      → ((exec_ops now ops s).0.cache_enabled ≡ s.cache_enabled)
        × ((exec_ops now ops s).0.flush_in_flight ≡ s.flush_in_flight)
  unfolding exec_ops cache_call
  exec_ops_lem now [] s = (refl, refl)
  exec_ops_lem now ((op, ok) ∷ ops) s =
      let rest = exec_ops_lem now ops (cache_call ok false now s) in
      (ground (arith, rest.0), ground (arith, rest.1))

  settle_flush_lem :
      (b : FlushBatch V) (ok : Bool) (s : Service V)
      → ((settle_flush b ok s).0.cache_enabled ≡ s.cache_enabled)
        × ((settle_flush b ok s).0.flush_in_flight ≡ false)
  unfolding settle_flush requeue_failed_writes
  settle_flush_lem b ok s = (ground arith, ground arith)

module _ {V : Type 0} (marshal : V → String) where
  pub act-Ready : (l : Late V) (s : System V) → Ready s → Ready (act marshal l s)
  unfolding act queue_hash_field queue_hash_drop queue_plain_write begin_flush settle_flush
      requeue_failed_writes
  act-Ready (late_field key f v ttl max) s h = record {
    enabled = ground (arith, h.enabled);
    single = ground (arith, h.single);
  }
  act-Ready (late_drop key fs ttl) s h = record {
    enabled = ground (arith, h.enabled);
    single = ground (arith, h.single);
  }
  act-Ready (late_plain key v ttl) s h = record {
    enabled = ground (arith, h.enabled);
    single = ground (arith, h.single);
  }
  act-Ready (late_begin now) s h = record {
    enabled = ground (arith, h.enabled);
    single = ground (arith, h.single);
  }
  act-Ready (late_end ok) s h = elim (Option-cases s.in_flight) [
    | inl n ↦ record {
      enabled = ground (arith, n, h.enabled);
      single = ground (arith, n, h.single);
    }
    | inr (b, e) ↦ record { enabled = ground (arith, e, h.enabled); single = ground (arith, e) }
  ]

  act-in_flight :
      (l : Late V) (ls : List (Late V)) (s : System V)
      → s.in_flight ≡ none
      → ((act marshal l s).in_flight ≡ none) ⊎ (some_begin (l ∷ ls) ≡ true)
  unfolding act
  act-in_flight (late_field key f v ttl max) ls s n = inl n
  act-in_flight (late_drop key fs ttl) ls s n = inl n
  act-in_flight (late_plain key v ttl) ls s n = inl n
  act-in_flight (late_begin now) ls s n = inr refl
  act-in_flight (late_end ok) ls s n = inl (ground (arith, n))

  some_begin-later :
      (l : Late V) (ls : List (Late V)) → some_begin ls ≡ true → some_begin (l ∷ ls) ≡ true
  some_begin-later (late_field key f v ttl max) ls h = h
  some_begin-later (late_drop key fs ttl) ls h = h
  some_begin-later (late_plain key v ttl) ls h = h
  some_begin-later (late_begin now) ls h = refl
  some_begin-later (late_end ok) ls h = h

  pub act_all-Ready : (ls : List (Late V)) (s : System V) → Ready s → Ready (act_all marshal ls s)
  unfolding act_all
  act_all-Ready [] s h = h
  act_all-Ready (l ∷ ls) s h = act_all-Ready ls (act marshal l s) (act-Ready l s h)

  pub act_all-in_flight :
      (ls : List (Late V)) (s : System V)
      → s.in_flight ≡ none
      → ((act_all marshal ls s).in_flight ≡ none) ⊎ (some_begin ls ≡ true)
  unfolding act_all
  act_all-in_flight [] s n = inl n
  act_all-in_flight (l ∷ ls) s n = elim (act-in_flight l ls s n) [
    | inr began ↦ inr began
    | inl still ↦ elim (act_all-in_flight ls (act marshal l s) still) [
      | inl m ↦ inl m
      | inr began ↦ inr (some_begin-later l ls began)
    ]
  ]

  act-Sending : (l : Late V) (s : System V) → Sending s → Sending (act marshal l s)
  unfolding act queue_hash_field queue_hash_drop queue_plain_write begin_flush
  act-Sending (late_field key f v ttl max) s h = record {
    enabled = ground (arith, h.enabled);
    flag = ground (arith, h.flag);
    alone = h.alone;
  }
  act-Sending (late_drop key fs ttl) s h = record {
    enabled = ground (arith, h.enabled);
    flag = ground (arith, h.flag);
    alone = h.alone;
  }
  act-Sending (late_plain key v ttl) s h = record {
    enabled = ground (arith, h.enabled);
    flag = ground (arith, h.flag);
    alone = h.alone;
  }
  act-Sending (late_begin now) s h = record {
    enabled = ground (arith, h.enabled);
    flag = ground (arith, h.flag);
    alone = ground (arith, h.flag, h.alone);
  }
  act-Sending (late_end ok) s h = record {
    enabled = ground (arith, h.alone, h.enabled);
    flag = ground (arith, h.alone, h.flag);
    alone = ground (arith, h.alone);
  }

  act_all-Sending : (ls : List (Late V)) (s : System V) → Sending s → Sending (act_all marshal ls s)
  unfolding act_all
  act_all-Sending [] s h = h
  act_all-Sending (l ∷ ls) s h = act_all-Sending ls (act marshal l s) (act-Sending l s h)

  pub run_flush_lem :
      (a : Attempt V) (b : FlushBatch V) (s : System V)
      → Sending s
      → Ready (run_flush marshal a b s) × ((run_flush marshal a b s).in_flight ≡ none)
  unfolding run_flush
  run_flush_lem a b s h =
      let ops = map (λ op. (op, a.succeeds op)) b.ops in
      let sent : Service V × Bool =
        if is_empty b.ops then (s.service, false) else exec_ops a.now ops s.service in
      let lem = exec_ops_lem a.now ops s.service in
      let sending : Sending (record s { service = sent.0 }) = record {
        enabled = ground (arith, lem.0, h.enabled);
        flag = ground (arith, lem.1, h.flag);
        alone = h.alone;
      } in
      let others = act_all-Sending a.during (record s { service = sent.0 }) sending in
      let settled =
        settle_flush_lem b sent.1
          (act_all marshal a.during (record s { service = sent.0 })).service in
      (
        record {
          enabled = settled.0 ∙ others.enabled;
          single = ground (arith, settled.1, others.alone);
        },
        others.alone,
      )
