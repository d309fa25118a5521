-- ===== src/Analytics/Writebehind.antt =====
-- internal/analytics/writebehind.go: the buffer of writes to the key-value cache. An ordered map is an
-- association list, and a field is the number that it is written from. A key is given with its
-- broker, a value's JSON text by `marshal`, and times are epoch milliseconds.
pub mod Requeue
pub mod Disjoint
pub mod Flights
pub mod Sending
pub mod Final
pub mod Tests
use cal_spread_backend.Base.{
  ℕ, zero, suc, ◌+◌, ◌-◌, ◌*◌, Bool, true, false, not, ◌&&◌, ◌||◌, Option, none, some, List, [],
  ◌∷◌, ◌++◌, String, ltb, leb, length, is_empty, is_some, mem, if◌then◌else◌, ite, ℕ_discrete,
}
use cal_spread_backend.Base.Maps.{Map, get, put, delete, keys}
use cal_spread_backend.Httpx.Ratelimit.{String-discrete}
use cal_spread_backend.Quotes.{sort_stable, take}

abbrev pub max_buffered_frame_fields : ℕ
max_buffered_frame_fields = 3000

abbrev max_buffered_snapshot_fields : ℕ
max_buffered_snapshot_fields = 60

abbrev pub ttl_refresh_every_ms : ℕ
ttl_refresh_every_ms = 900000

abbrev pub cache_fail_threshold : ℕ
cache_fail_threshold = 3

abbrev pub cache_cooldown_ms : ℕ
cache_cooldown_ms = 60000

-- The writes of one hash: the fields to be set, and those to be deleted.
pub record PendingHash (V : Type 0) : Type 0 where
  pub entries : Map ℕ V
  pub stale : List ℕ
  pub ttl_sec : ℕ
  pub max_fields : ℕ

pub record PlainWrite (V : Type 0) : Type 0 where
  pub value : V
  pub ttl_sec : ℕ

-- One command of a flush.
pub data CacheOp : Type 0 where
  hset_op : String → List (ℕ × String) → CacheOp
  hdel_op : String → List ℕ → CacheOp
  expire_op : String → ℕ → CacheOp
  set_op : String → String → ℕ → CacheOp

pub record Service (V : Type 0) : Type 0 where
  pub cache_enabled : Bool
  pub pending_hash : Map String (PendingHash V)
  pub pending_plain : Map String (PlainWrite V)
  pub flush_in_flight : Bool
  pub flush_again : Bool
  pub ttl_refreshed_at : Map String ℕ
  pub consecutive_failures : ℕ
  pub muted_until : ℕ

pub record FlushBatch (V : Type 0) : Type 0 where
  pub hashes : Map String (PendingHash V)
  pub plains : Map String (PlainWrite V)
  pub ops : List CacheOp
  pub ttl_sent : List String
  pub now : ℕ

unfoldable pub discard : ℕ → List ℕ → List ℕ
discard f [] = []
discard f (g ∷ gs) = ite (ℕ_discrete g f) (discard f gs) (g ∷ discard f gs)

unfoldable pub add_stale : ℕ → List ℕ → List ℕ
add_stale f fs = if mem ℕ_discrete f fs then fs else fs ++ f ∷ []

unfoldable pub stamp_all : List String → ℕ → Map String ℕ → Map String ℕ
stamp_all [] now m = m
stamp_all (key ∷ ks) now m = stamp_all ks now (put String-discrete key now m)

module _ {V : Type 0} where
  abbrev pub no_writes : PendingHash V
  no_writes = record { entries = []; stale = []; ttl_sec = 0; max_fields = 0 }

  unfoldable pub pending_for : String → ℕ → ℕ → Map String (PendingHash V) → PendingHash V
  pending_for key ttl_sec max_fields m = elim (get String-discrete key m) [
    | none ↦ record no_writes { ttl_sec = ttl_sec; max_fields = max_fields }
    | some p ↦ record p { ttl_sec = ttl_sec; max_fields = max_fields }
  ]

  abbrev pub set_entry : ℕ → V → PendingHash V → PendingHash V
  set_entry f v p = record p { entries = put ℕ_discrete f v p.entries; stale = discard f p.stale }

  unfoldable pub queue_hash_field : String → ℕ → V → ℕ → ℕ → Service V → Service V
  queue_hash_field key f v ttl_sec max_fields s =
      if s.cache_enabled
      then record s {
        pending_hash =
            put String-discrete key
              (set_entry f v (pending_for key ttl_sec max_fields s.pending_hash)) s.pending_hash;
      }
      else s

  unfoldable pub drop_entries : List ℕ → PendingHash V → PendingHash V
  drop_entries [] p = p
  drop_entries (f ∷ fs) p =
      drop_entries fs
        (record p { entries = delete ℕ_discrete f p.entries; stale = add_stale f p.stale })

  unfoldable pub queue_hash_drop : String → List ℕ → ℕ → Service V → Service V
  queue_hash_drop key fields ttl_sec s =
      if not s.cache_enabled || is_empty fields then s else record s {
        pending_hash =
            put String-discrete key
              (drop_entries fields
                (pending_for key ttl_sec max_buffered_frame_fields s.pending_hash))
              s.pending_hash;
      }

  unfoldable pub queue_plain_write : String → V → ℕ → Service V → Service V
  queue_plain_write key v ttl_sec s =
      if s.cache_enabled
      then record s {
        pending_plain =
            put String-discrete key (record { value = v; ttl_sec = ttl_sec }) s.pending_plain;
      }
      else s

  abbrev pub has_pending : Service V → Bool
  has_pending s = not (is_empty s.pending_hash) || not (is_empty s.pending_plain)

  abbrev pub can_send : ℕ → Service V → Bool
  can_send now s = s.cache_enabled && leb s.muted_until now

  abbrev pub refreshed_at : String → Service V → ℕ
  refreshed_at key s = elim (get String-discrete key s.ttl_refreshed_at) [ none ↦ 0 | some t ↦ t ]

  -- Whether the lifetime of a key is sent again.
  abbrev pub needs_ttl : ℕ → String → Service V → Bool
  needs_ttl now key s = ltb (refreshed_at key s + ttl_refresh_every_ms) now

  unfoldable pub ttl_keys : ℕ → List String → Service V → List String
  ttl_keys now [] s = []
  ttl_keys now (key ∷ ks) s =
      if needs_ttl now key s then key ∷ ttl_keys now ks s else ttl_keys now ks s

module _ {V : Type 0} (marshal : V → String) where
  abbrev pub field_pairs : Map ℕ V → List (ℕ × String)
  field_pairs [] = []
  field_pairs ((f, v) ∷ m) = (f, marshal v) ∷ field_pairs m

  unfoldable pub hash_write_ops : String → Map ℕ V → List ℕ → ℕ → List CacheOp
  hash_write_ops key entries stale ttl_sec =
      let sets = if is_empty entries then [] else hset_op key (field_pairs entries) ∷ [] in
      let ops = sets ++ (if is_empty stale then [] else hdel_op key stale ∷ []) in
      if not (is_empty ops) && ltb 0 ttl_sec then ops ++ expire_op key ttl_sec ∷ [] else ops

  unfoldable pub hash_ops : ℕ → Map String (PendingHash V) → Service V → List CacheOp
  hash_ops now [] s = []
  hash_ops now ((key, p) ∷ m) s =
      hash_write_ops key p.entries p.stale (if needs_ttl now key s then p.ttl_sec else 0)
      ++ hash_ops now m s

  unfoldable pub plain_ops : Map String (PlainWrite V) → List CacheOp
  plain_ops [] = []
  plain_ops ((key, p) ∷ m) = set_op key (marshal p.value) p.ttl_sec ∷ plain_ops m

  unfoldable pub batch_of : ℕ → Service V → FlushBatch V
  batch_of now s = record {
    hashes = s.pending_hash;
    plains = s.pending_plain;
    ops = hash_ops now s.pending_hash s ++ plain_ops s.pending_plain;
    ttl_sent = ttl_keys now (keys s.pending_hash) s;
    now = now;
  }

  unfoldable pub begin_flush : Bool → ℕ → Service V → Service V × Option (FlushBatch V)
  begin_flush force now s =
      if not s.cache_enabled
      then (s, none)
      else if s.flush_in_flight
      then (record s { flush_again = true }, none)
      else if not (has_pending s)
      then (s, none)
      else if not force && not (can_send now s)
      then (s, none)
      else (
        record s {
          flush_in_flight = true;
          flush_again = false;
          pending_hash = [];
          pending_plain = [];
        },
        some (batch_of now s),
      )

module _ {V : Type 0} where
  -- One call of the cache, with its success and the time at which a failure is counted.
  unfoldable pub cache_call : Bool → Bool → ℕ → Service V → Service V
  cache_call ok count_success now s =
      if ok
      then (if count_success then record s { consecutive_failures = 0 } else s)
      else if leb cache_fail_threshold (s.consecutive_failures + 1)
      then record s { muted_until = now + cache_cooldown_ms; consecutive_failures = 0 }
      else record s { consecutive_failures = s.consecutive_failures + 1 }

  -- The commands in order, up to the first that fails, with each one's success.
  unfoldable pub exec_ops : ℕ → List (CacheOp × Bool) → Service V → Service V × Bool
  exec_ops now [] s = (record s { consecutive_failures = 0 }, true)
  exec_ops now ((op, ok) ∷ ops) s =
      let called = cache_call ok false now s in
      elim ok [ false ↦ (called, false) | true ↦ exec_ops now ops called ]

  unfoldable pub merge_entries : Map ℕ V → List ℕ → Map ℕ V → Map ℕ V
  merge_entries [] stale cur = cur
  merge_entries ((f, v) ∷ old) stale cur = merge_entries old stale (
      if is_some (get ℕ_discrete f cur) || mem ℕ_discrete f stale
      then cur
      else put ℕ_discrete f v cur)

  unfoldable pub merge_stale : List ℕ → Map ℕ V → List ℕ → List ℕ
  merge_stale [] entries cur = cur
  merge_stale (f ∷ old) entries cur =
      merge_stale old entries (if is_some (get ℕ_discrete f entries) then cur else add_stale f cur)

  -- What was taken for a flush goes under what has been queued since.
  unfoldable pub merge_pending : PendingHash V → PendingHash V → PendingHash V
  merge_pending old cur =
      let entries = merge_entries old.entries cur.stale cur.entries in
      record cur { entries = entries; stale = merge_stale old.stale entries cur.stale }

  unfoldable pub merge_hashes :
      Map String (PendingHash V) → Map String (PendingHash V) → Map String (PendingHash V)
  merge_hashes [] cur = cur
  merge_hashes ((key, old) ∷ m) cur = merge_hashes m (elim (get String-discrete key cur) [
    | none ↦ put String-discrete key old cur
    | some p ↦ put String-discrete key (merge_pending old p) cur
  ])

  unfoldable pub merge_plains :
      Map String (PlainWrite V) → Map String (PlainWrite V) → Map String (PlainWrite V)
  merge_plains [] cur = cur
  merge_plains ((key, p) ∷ m) cur =
      merge_plains m
        (if is_some (get String-discrete key cur) then cur else put String-discrete key p cur)

  unfoldable pub delete_fields : List ℕ → Map ℕ V → Map ℕ V
  delete_fields [] m = m
  delete_fields (f ∷ fs) m = delete_fields fs (delete ℕ_discrete f m)

  -- The backlog keeps at most `max_fields` fields, without the smallest.
  unfoldable pub cap_pending : PendingHash V → PendingHash V
  cap_pending p =
      let over = length p.entries - p.max_fields in
      record p { entries = delete_fields (take over (sort_stable ltb (keys p.entries))) p.entries }

  unfoldable pub cap_all : Map String (PendingHash V) → Map String (PendingHash V)
  cap_all [] = []
  cap_all ((key, p) ∷ m) = (key, cap_pending p) ∷ cap_all m

  unfoldable pub requeue_failed_writes :
      Map String (PendingHash V) → Map String (PlainWrite V) → Service V → Service V
  requeue_failed_writes hashes plains s = record s {
    pending_hash = cap_all (merge_hashes hashes s.pending_hash);
    pending_plain = merge_plains plains s.pending_plain;
  }

  -- The end of a flush; the second part tells whether another was asked for meanwhile.
  unfoldable pub settle_flush : FlushBatch V → Bool → Service V → Service V × Bool
  settle_flush b ok s =
      let settled =
        if ok
        then record s { ttl_refreshed_at = stamp_all b.ttl_sent b.now s.ttl_refreshed_at }
        else requeue_failed_writes b.hashes b.plains s in
      (record settled { flush_in_flight = false; flush_again = false }, settled.flush_again)
