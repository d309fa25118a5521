-- ===== src/Analytics/Writebehind/Tests.antt =====
-- Runs of the buffer of internal/analytics/writebehind.go.
use Prim.Native.String.{count}
use cal_spread_backend.Base.{
  ℕ, zero, suc, ◌≡◌, ◌∙◌, sym, ap, ◌⊎◌, refl, true, false, none, some, [], ◌∷◌, String, ℕ_discrete,
  List, arith, mem, is_some, ltb, ◌+◌,
}
use cal_spread_backend.Base.Maps.{get, delete, put}
use cal_spread_backend.Kv.{Cache, fields_of}
use cal_spread_backend.Kv.Visible.{entry, Rooted, old_fields}
use cal_spread_backend.Kv.Commands.{commands, expire_by, InOrder}
use cal_spread_backend.Analytics.Writebehind.Disjoint.{IsDisjoint}
use cal_spread_backend.Analytics.Writebehind.Final.{
  Attempt, late_field, late_plain, late_begin, flushed, flush_now, attempts, act, act_all,
  run_flush,
}
use cal_spread_backend.Analytics.Writebehind.Final.Answers.{Truthful, flush_now-Truthful}
use cal_spread_backend.Analytics.Writebehind.Sending.{ops_of, sent_all, sent_all-field_write}
use cal_spread_backend.Httpx.Ratelimit.{String-discrete}
use cal_spread_backend.Analytics.Writebehind.{
  PendingHash, Service, FlushBatch, queue_hash_field, begin_flush, batch_of, settle_flush,
  merge_hashes, cap_pending, queue_plain_write, exec_ops, plain_ops, hash_ops, cache_call,
  delete_fields, hset_op, hdel_op, expire_op, hash_write_ops, CacheOp,
}
use cal_spread_backend.Analytics.Writebehind.Requeue.{
  field_write, write_of, overlay, Overflows, settle_flush-failed,
}
use cal_spread_backend.Analytics.Writebehind.Flights.{
  System, Settled, stay, then_step, sets_field, flush_begins, flush_ends, begins, settles,
  Reaches-Settled,
}

abbrev text : String → String
text v = v

abbrev pending : PendingHash String
pending = record {
  entries = (1000, "a") ∷ (2000, "b") ∷ [];
  stale = 500 ∷ [];
  ttl_sec = 60;
  max_fields = 2;
}

abbrev service : Service String
service = record {
  cache_enabled = true;
  pending_hash = ("frames", pending) ∷ [];
  pending_plain = [];
  flush_in_flight = false;
  flush_again = false;
  ttl_refreshed_at = [];
  consecutive_failures = 0;
  muted_until = 0;
}

abbrev batch : FlushBatch String
batch = batch_of text 1000000 service

ops :
    hash_write_ops text "frames" pending.entries pending.stale 60
    ≡ hset_op "frames" ((1000, "a") ∷ (2000, "b") ∷ [])
      ∷ hdel_op "frames" (500 ∷ [])
      ∷ expire_op "frames" 60
      ∷ []
unfolding hash_write_ops
ops = refl

began : (begin_flush text false 1000000 service).1 ≡ some batch
unfolding begin_flush
began = refl

-- A backlog of three fields loses the smallest.
capped :
    (cap_pending
      (record pending { entries = (3000, "c") ∷ (1000, "a") ∷ (2000, "b") ∷ [] })).entries
    ≡ (3000, "c") ∷ (2000, "b") ∷ []
unfolding cap_pending delete_fields cal_spread_backend.Quotes.sort_stable
    cal_spread_backend.Quotes.insert delete ℕ_discrete
capped = refl

-- Field 2000 has been queued again since.
abbrev since : Service String
since = queue_hash_field "frames" 2000 "newer" 60 2 (begin_flush text false 1000000 service).0

settle_flush-failed_example :
    ((write_of "frames" 1000 (settle_flush batch false since).0.pending_hash
        ≡ overlay
            (write_of "frames" 1000 since.pending_hash)
            (write_of "frames" 1000 service.pending_hash))
      ⊎ Overflows "frames" 1000 (merge_hashes service.pending_hash since.pending_hash))
    × (get String-discrete "frames" (settle_flush batch false since).0.pending_plain
        ≡ elim (get String-discrete "frames" since.pending_plain) [
          | some p ↦ some p
          | none ↦ get String-discrete "frames" service.pending_plain
        ])
unfolding get
settle_flush-failed_example =
    settle_flush-failed text false 1000000 service since batch "frames" 1000 began (refl, tt)

abbrev empty_system : System String
empty_system = record { service = record service { pending_hash = [] }; in_flight = none }

abbrev queued_system : System String
queued_system = record empty_system {
  service = queue_hash_field "frames" 1000 "a" 60 2 empty_system.service;
}

empty_system-Settled : Settled text empty_system
empty_system-Settled = record {
  tidy = (tt, tt);
  taken = λ b e. absurd (none_taken b e);
  single = refl;
}
  where
    none_taken : (b : FlushBatch String) → empty_system.in_flight ≡ some b → ⊥
    none_taken b e = ground arith

Reaches-Settled_example :
    Settled text (settles text false (begins text false 1000000 queued_system))
Reaches-Settled_example =
    Reaches-Settled text
      (then_step
        (then_step (then_step stay (sets_field "frames" 1000 "a" 60 2))
          (flush_begins false 1000000))
        (flush_ends false))
      empty_system-Settled

-- A number written with as many strokes.
abbrev strokes : ℕ → String
strokes zero = Prim.Native.String.String.[]
strokes (suc n) = Prim.Native.String.String.◌∷◌ "1" (strokes n)

count-strokes : (n : ℕ) → count (strokes n) ≡ n
count-strokes zero = refl
count-strokes (suc n) =
    (λ i. Prim.Native.String.count.cons "1" (strokes n) i) ∙ ap suc (count-strokes n)

strokes_injective : (a b : ℕ) → strokes a ≡ strokes b → a ≡ b
strokes_injective a b p = sym (count-strokes a) ∙ ap count p ∙ count-strokes b

abbrev short : PendingHash String
short = record pending { entries = (1, "a") ∷ (2, "b") ∷ []; stale = 3 ∷ [] }

short-IsDisjoint : IsDisjoint short
unfolding get mem
short-IsDisjoint = record { apart = λ f e. ground arith }

-- The cache has an old value of the first field and of the one that is to be deleted.
abbrev cache : Cache
cache = record {
  enabled = true;
  tables = record {
    keys = ("frames", none) ∷ [];
    rows = (("frames", strokes 1), "old") ∷ (("frames", strokes 3), "gone") ∷ [];
  };
}

cache-Rooted : Rooted cache.tables
unfolding get fields_of
cache-Rooted k h = ground arith

cache-lasts : expire_by 10 (entry 5 "frames" cache.tables) ≡ entry 5 "frames" cache.tables
unfolding entry get
cache-lasts = ground arith

abbrev timed : List (ℕ × ℕ × CacheOp)
timed =
    (5, 6, hset_op "frames" ((1, "a") ∷ (2, "b") ∷ []))
    ∷ (7, 7, hdel_op "frames" (3 ∷ []))
    ∷ (8, 9, expire_op "frames" 60)
    ∷ []

timed_ops : ops_of timed ≡ hash_write_ops text "frames" short.entries short.stale 60
unfolding hash_write_ops
timed_ops = refl

timed_orderly : InOrder 5 (sent_all strokes timed)
unfolding sent_all
timed_orderly = (omega arith, (omega arith, (omega arith, tt)))

sent_all-field_write_example :
    get String-discrete
      (strokes 1)
      (old_fields (entry 10 "frames" (commands (sent_all strokes timed) cache).tables))
    ≡ elim (field_write 1 short) [
      | none ↦ get String-discrete (strokes 1) (old_fields (entry 5 "frames" cache.tables))
      | some w ↦ elim w [ none ↦ none | some v ↦ some (text v) ]
    ]
unfolding get ℕ_discrete
sent_all-field_write_example =
    sent_all-field_write strokes text 5 10 60 "frames" 1 short timed cache strokes_injective refl
      cache-Rooted (refl, (refl, tt)) short-IsDisjoint timed_ops timed_orderly (omega arith)
      (omega arith, omega arith, (omega arith, omega arith, (omega arith, omega arith, tt)))
      cache-lasts (λ h. omega arith)

-- A flush in flight fails at shutdown, a field is queued after it, and the cache refuses the first flush.
abbrev surroundings : ℕ → Attempt String
surroundings i = record {
  landed = false;
  ends_waiting = false;
  now = 1000000 + i;
  succeeds = λ op. ltb 1 i;
  before = [];
  during = late_field "frames" 3000 "late" 60 2 ∷ [];
  after = [];
  ended = false;
}

abbrev flying : System String
flying = record {
  service = record service { pending_hash = []; flush_in_flight = true };
  in_flight = some batch;
}

-- The flush in flight succeeds and nothing is queued after it.
abbrev calm : ℕ → Attempt String
calm i = record (surroundings i) { landed = true; during = [] }

all_written : (flush_now text calm [] flying).1 ≡ flushed
unfolding flush_now attempts act_all act settle_flush begin_flush
all_written = refl

flush_now-Truthful_example :
    Truthful
      (surroundings 0 ∷ surroundings 1 ∷ surroundings 2 ∷ surroundings 3 ∷ [])
      []
      (flush_now text surroundings [] flying)
flush_now-Truthful_example =
    flush_now-Truthful text surroundings [] flying (record { enabled = refl; single = refl })

-- Another goroutine queues a value and begins its flush before the final flush looks at what is left.
abbrev busy : ℕ → Attempt String
busy i = record (surroundings i) {
  succeeds = λ op. true;
  during = [];
  after = late_plain "late" "v" 60 ∷ late_begin 2000000 ∷ [];
}

abbrev still : System String
still = record {
  service = record service {
    pending_hash = [];
    pending_plain = ("k", record { value = "v"; ttl_sec = 60 }) ∷ [];
  };
  in_flight = none;
}

says_flushed : (flush_now text busy [] still).1 ≡ flushed
unfolding flush_now attempts act_all act settle_flush begin_flush batch_of run_flush
    queue_plain_write exec_ops plain_ops hash_ops cache_call put
says_flushed = refl

but_flying : is_some (flush_now text busy [] still).0.in_flight ≡ true
unfolding flush_now attempts act_all act settle_flush begin_flush batch_of run_flush
    queue_plain_write exec_ops plain_ops hash_ops cache_call put
but_flying = refl
