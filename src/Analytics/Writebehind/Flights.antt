-- ===== src/Analytics/Writebehind/Flights.antt =====
-- internal/analytics/writebehind.go: the buffer while flushes begin and end.
use cal_spread_backend.Base.{
  ℕ, ◌≡◌, subst, Bool, not, ◌||◌, Option, none, some, List, [], String, is_empty, is_some, arith,
  Option-cases, Bool-cases, inl, inr,
}
use cal_spread_backend.Analytics.Writebehind.{
  Service, FlushBatch, pending_for, set_entry, queue_hash_field, drop_entries, queue_hash_drop,
  queue_plain_write, begin_flush, batch_of, settle_flush, merge_hashes, requeue_failed_writes,
  max_buffered_frame_fields,
}
use cal_spread_backend.Analytics.Writebehind.Disjoint.{
  Tidy, put-Tidy, pending_for-IsDisjoint, set_entry-IsDisjoint, drop_entries-IsDisjoint,
  merge_hashes-Tidy, cap_all-Tidy,
}

-- The service with the flush in flight.
pub record System (V : Type 0) : Type 0 where
  pub service : Service V
  pub in_flight : Option (FlushBatch V)

module _ {V : Type 0} (marshal : V → String) where
  abbrev pub begins : Bool → ℕ → System V → System V
  begins force now s =
      let r = begin_flush marshal force now s.service in
      record { service = r.0; in_flight = elim r.1 [ none ↦ s.in_flight | some b ↦ some b ] }

  abbrev pub settles : Bool → System V → System V
  settles ok s = elim s.in_flight [
    | none ↦ s
    | some b ↦ record { service = (settle_flush b ok s.service).0; in_flight = none }
  ]

  -- No field of a hash is to be set and to be deleted at once, in the buffer and in the flush, there is
  -- one entry for each key, and the flag tells whether a flush is in flight.
  pub record Settled (s : System V) : Type 0 where
    pub tidy : Tidy s.service.pending_hash
    pub taken : (b : FlushBatch V) → s.in_flight ≡ some b → Tidy b.hashes
    pub single : s.service.flush_in_flight ≡ is_some s.in_flight

  pub data Step : System V → System V → Type 0 where
    sets_field :
        {s : System V} (key : String) (f : ℕ) (v : V) (ttl max : ℕ)
        → Step s (record s { service = queue_hash_field key f v ttl max s.service })
    drops_fields :
        {s : System V} (key : String) (fs : List ℕ) (ttl : ℕ)
        → Step s (record s { service = queue_hash_drop key fs ttl s.service })
    sets_plain :
        {s : System V} (key : String) (v : V) (ttl : ℕ)
        → Step s (record s { service = queue_plain_write key v ttl s.service })
    flush_begins : {s : System V} (force : Bool) (now : ℕ) → Step s (begins force now s)
    flush_ends : {s : System V} (ok : Bool) → Step s (settles ok s)

  pub data Reaches : System V → System V → Type 0 where
    stay : {s : System V} → Reaches s s
    then_step : {s t u : System V} → Reaches s t → Step t u → Reaches s u

  sets_field-Settled :
      (key : String) (f : ℕ) (v : V) (ttl max : ℕ) (s : System V)
      → Settled s
      → Settled (record s { service = queue_hash_field key f v ttl max s.service })
  unfolding queue_hash_field
  sets_field-Settled key f v ttl max s h =
      let p = pending_for key ttl max s.service.pending_hash in
      elim (Bool-cases s.service.cache_enabled) [
        | inl e ↦ record {
          tidy = subst Tidy (ground (arith, e)) (
              put-Tidy key (set_entry f v p) s.service.pending_hash
                (set_entry-IsDisjoint f v p
                  (pending_for-IsDisjoint key ttl max s.service.pending_hash h.tidy))
                h.tidy);
          taken = h.taken;
          single = ground (arith, h.single);
        }
        | inr e ↦ record {
          tidy = subst Tidy (ground (arith, e)) h.tidy;
          taken = h.taken;
          single = ground (arith, h.single);
        }
      ]

  drops_fields-Settled :
      (key : String) (fs : List ℕ) (ttl : ℕ) (s : System V)
      → Settled s
      → Settled (record s { service = queue_hash_drop key fs ttl s.service })
  unfolding queue_hash_drop
  drops_fields-Settled key fs ttl s h =
      let p = pending_for key ttl max_buffered_frame_fields s.service.pending_hash in
      elim (Bool-cases (not s.service.cache_enabled || is_empty fs)) [
        | inr e ↦ record {
          tidy = subst Tidy (ground (arith, e)) (
              put-Tidy key (drop_entries fs p) s.service.pending_hash
                (drop_entries-IsDisjoint fs p (
                  pending_for-IsDisjoint key ttl max_buffered_frame_fields s.service.pending_hash
                    h.tidy))
                h.tidy);
          taken = h.taken;
          single = ground (arith, h.single);
        }
        | inl e ↦ record {
          tidy = subst Tidy (ground (arith, e)) h.tidy;
          taken = h.taken;
          single = ground (arith, h.single);
        }
      ]

  sets_plain-Settled :
      (key : String) (v : V) (ttl : ℕ) (s : System V)
      → Settled s
      → Settled (record s { service = queue_plain_write key v ttl s.service })
  unfolding queue_plain_write
  sets_plain-Settled key v ttl s h = record {
    tidy = subst Tidy (ground arith) h.tidy;
    taken = h.taken;
    single = ground (arith, h.single);
  }

  begins-Settled :
      (force : Bool) (now : ℕ) (s : System V) → Settled s → Settled (begins force now s)
  unfolding begin_flush batch_of
  begins-Settled force now s h = elim (Option-cases (begin_flush marshal force now s.service).1) [
    | inl n ↦ record {
      tidy = subst Tidy (ground (arith, n)) h.tidy;
      taken = λ b e. h.taken b (ground (arith, n));
      single = ground (arith, h.single, n);
    }
    | inr (b, e) ↦ record {
      tidy = subst Tidy {x = []} (ground (arith, e)) (tt, tt);
      taken = λ c f. subst Tidy (ground (arith, e)) h.tidy;
      single = ground (arith, h.single, e);
    }
  ]

  settles-Settled : (ok : Bool) (s : System V) → Settled s → Settled (settles ok s)
  unfolding settle_flush requeue_failed_writes
  settles-Settled ok s h = elim (Option-cases s.in_flight) [
    | inl n ↦ subst Settled (ground (arith, n)) h
    | inr (b, e) ↦ elim (Bool-cases ok) [
      | inl good ↦ record {
        tidy = subst Tidy (ground (arith, e, good)) h.tidy;
        taken = λ c f. absurd (ground (arith, e));
        single = ground (arith, e, good);
      }
      | inr bad ↦ record {
        tidy = subst Tidy (ground (arith, e, bad)) (
            cap_all-Tidy (merge_hashes b.hashes s.service.pending_hash)
              (merge_hashes-Tidy b.hashes s.service.pending_hash (h.taken b e).1 h.tidy));
        taken = λ c f. absurd (ground (arith, e));
        single = ground (arith, e, bad);
      }
    ]
  ]

  -- However writes are queued and flushes begin and end, the flag is set exactly while a flush is in
  -- flight, and in the buffer and in the flush each key has one entry, in which no field is to be set
  -- and to be deleted at once.
  pub Reaches-Settled : {s t : System V} → Reaches s t → Settled s → Settled t
  Reaches-Settled stay h = h
  Reaches-Settled (then_step r (sets_field {s = s} key f v ttl max)) h =
      sets_field-Settled key f v ttl max s (Reaches-Settled r h)
  Reaches-Settled (then_step r (drops_fields {s = s} key fs ttl)) h =
      drops_fields-Settled key fs ttl s (Reaches-Settled r h)
  Reaches-Settled (then_step r (sets_plain {s = s} key v ttl)) h =
      sets_plain-Settled key v ttl s (Reaches-Settled r h)
  Reaches-Settled (then_step r (flush_begins {s = s} force now)) h =
      begins-Settled force now s (Reaches-Settled r h)
  Reaches-Settled (then_step r (flush_ends {s = s} ok)) h =
      settles-Settled ok s (Reaches-Settled r h)
