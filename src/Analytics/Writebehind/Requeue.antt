-- ===== src/Analytics/Writebehind/Requeue.antt =====
-- internal/analytics/writebehind.go: what a failed flush puts back.
use cal_spread_backend.Base.{
  ℕ, ◌-◌, ◌≤◌, ◌<◌, ◌≡◌, ◌⊎◌, inl, inr, refl, Bool, true, false, not, ◌&&◌, ◌||◌, Option, none,
  some, List, [], ◌∷◌, ◌++◌, String, ltb, length, is_some, mem, if◌then◌else◌, ite, arith,
  ℕ_discrete, Option-cases, dec_le,
}
use cal_spread_backend.Base.Keys.{Unique}
use cal_spread_backend.Base.Maps.{Map, get, put, delete, keys, get-put, get-delete}
use cal_spread_backend.Httpx.Ratelimit.{String-discrete}
use cal_spread_backend.Quotes.{sort_stable, take}
use cal_spread_backend.Analytics.Writebehind.{
  PendingHash, PlainWrite, Service, add_stale, merge_entries, merge_stale, merge_pending,
  merge_hashes, delete_fields, cap_pending, cap_all, requeue_failed_writes, merge_plains,
  FlushBatch, begin_flush, batch_of, settle_flush,
}

mem-append :
    (f g : ℕ) (fs : List ℕ)
    → mem ℕ_discrete f (fs ++ g ∷ []) ≡ ite (ℕ_discrete g f) true (mem ℕ_discrete f fs)
unfolding mem
mem-append f g [] = ground arith
mem-append f g (h ∷ fs) = ground (arith, mem-append f g fs)

pub mem-add_stale :
    (f g : ℕ) (fs : List ℕ)
    → mem ℕ_discrete f (add_stale g fs) ≡ ite (ℕ_discrete g f) true (mem ℕ_discrete f fs)
unfolding add_stale
mem-add_stale f g fs = ground (arith, mem-append f g fs)

module _ {V : Type 0} where
  -- What is to be written to a field: a value, its deletion (`some none`), or nothing.
  abbrev pub field_write : ℕ → PendingHash V → Option (Option V)
  field_write f p = elim (get ℕ_discrete f p.entries) [
    | some v ↦ some (some v)
    | none ↦ if mem ℕ_discrete f p.stale then some none else none
  ]

  unfoldable pub write_of : String → ℕ → Map String (PendingHash V) → Option (Option V)
  write_of key f m = elim (get String-discrete key m) [ none ↦ none | some p ↦ field_write f p ]

  -- The newer write, if there is one.
  abbrev pub overlay : Option (Option V) → Option (Option V) → Option (Option V)
  overlay none old = old
  overlay (some w) old = some w

  pub get-merge_entries :
      (f : ℕ) (old : Map ℕ V) (stale : List ℕ) (cur : Map ℕ V)
      → get ℕ_discrete f (merge_entries old stale cur) ≡ elim (get ℕ_discrete f cur) [
        | some v ↦ some v
        | none ↦ if mem ℕ_discrete f stale then none else get ℕ_discrete f old
      ]
  unfolding merge_entries get
  get-merge_entries f [] stale cur = ground arith
  get-merge_entries f ((g, v) ∷ old) stale cur = ground (
    arith,
    get-merge_entries f old stale cur,
    get-merge_entries f old stale (put ℕ_discrete g v cur),
    get-put ℕ_discrete g f v cur,
  )

  pub mem-merge_stale :
      (f : ℕ) (old : List ℕ) (entries : Map ℕ V) (cur : List ℕ)
      → mem ℕ_discrete f (merge_stale old entries cur) ≡ (
          mem ℕ_discrete f cur
          || (mem ℕ_discrete f old && not (is_some (get ℕ_discrete f entries))))
  unfolding merge_stale mem
  mem-merge_stale f [] entries cur = ground arith
  mem-merge_stale f (g ∷ old) entries cur = ground (
    arith,
    mem-merge_stale f old entries cur,
    mem-merge_stale f old entries (add_stale g cur),
    mem-add_stale f g cur,
  )

  field_write-merge_pending :
      (f : ℕ) (old cur : PendingHash V)
      → field_write f (merge_pending old cur) ≡ overlay (field_write f cur) (field_write f old)
  unfolding merge_pending
  field_write-merge_pending f old cur = ground (
    arith,
    get-merge_entries f old.entries cur.stale cur.entries,
    mem-merge_stale f old.stale (merge_entries old.entries cur.stale cur.entries) cur.stale,
  )

  write_of-merge_hashes :
      (key : String) (f : ℕ) (m cur : Map String (PendingHash V))
      → Unique String-discrete m
      → write_of key f (merge_hashes m cur) ≡ overlay (write_of key f cur) (write_of key f m)
  unfolding merge_hashes write_of get
  write_of-merge_hashes key f [] cur u = ground arith
  write_of-merge_hashes key f ((k, old) ∷ m) cur u =
      elim (Option-cases (get String-discrete k cur)) [
        | inl n ↦ ground (
          arith,
          write_of-merge_hashes key f m (put String-discrete k old cur) u.1,
          get-put String-discrete k key old cur,
          u.0,
        )
        | inr (p, e) ↦ ground (
          arith,
          write_of-merge_hashes key f m (put String-discrete k (merge_pending old p) cur) u.1,
          get-put String-discrete k key (merge_pending old p) cur,
          field_write-merge_pending f old p,
          u.0,
        )
      ]

  pub get-cap_all :
      (key : String) (m : Map String (PendingHash V))
      → get String-discrete key (cap_all m)
        ≡ elim (get String-discrete key m) [ none ↦ none | some p ↦ some (cap_pending p) ]
  unfolding cap_all get
  get-cap_all key [] = refl
  get-cap_all key ((k, p) ∷ m) = ground (arith, get-cap_all key m)

  -- A key within its bound loses nothing.
  cap_pending_few : (p : PendingHash V) → length p.entries ≤ p.max_fields → cap_pending p ≡ p
  unfolding cap_pending delete_fields
  cap_pending_few p h =
      let none_over : length p.entries - p.max_fields ≡ 0 = omega arith in ground (arith, none_over)

  pub get-delete_fields :
      (f : ℕ) (fs : List ℕ) (m : Map ℕ V)
      → (get ℕ_discrete f (delete_fields fs m) ≡ get ℕ_discrete f m)
        ⊎ (get ℕ_discrete f (delete_fields fs m) ≡ none)
  unfolding delete_fields
  get-delete_fields f [] m = inl refl
  get-delete_fields f (g ∷ fs) m =
      ground (arith, get-delete_fields f fs (delete ℕ_discrete g m), get-delete ℕ_discrete g f m)

  -- The value to be written to a plain key: the newer one, if there is one.
  get-merge_plains :
      (key : String) (m cur : Map String (PlainWrite V))
      → get String-discrete key (merge_plains m cur)
        ≡ elim (get String-discrete key cur) [ some p ↦ some p | none ↦ get String-discrete key m ]
  unfolding merge_plains get
  get-merge_plains key [] cur = ground arith
  get-merge_plains key ((k, p) ∷ m) cur = ground (
    arith,
    get-merge_plains key m cur,
    get-merge_plains key m (put String-discrete k p cur),
    get-put String-discrete k key p cur,
  )

  -- A key with more fields than its bound, and a field of it that was to be set.
  abbrev pub Overflows : String → ℕ → Map String (PendingHash V) → Type 0
  Overflows key f m =
      (p : PendingHash V) × (v : V) × (get String-discrete key m ≡ some p)
      × (p.max_fields < length p.entries)
      × (write_of key f m ≡ some (some v))

  write_of-cap_all :
      (key : String) (f : ℕ) (m : Map String (PendingHash V))
      → (write_of key f (cap_all m) ≡ write_of key f m) ⊎ Overflows key f m
  unfolding write_of
  write_of-cap_all key f m = elim (Option-cases (get String-discrete key m)) [
    | inl n ↦ inl (ground (arith, n, get-cap_all key m))
    | inr (p, e) ↦ elim (dec_le (length p.entries) p.max_fields) [
      | yes few ↦ inl (ground (arith, e, get-cap_all key m, cap_pending_few p few))
      | no many ↦ elim (Option-cases (get ℕ_discrete f p.entries)) [
        | inl n ↦ inl (kept p e n)
        | inr (v, w) ↦ inr (p, v, e, omega (arith, many), ground (arith, e, w))
      ]
    ]
  ]
    where
      kept :
          (p : PendingHash V)
          → get String-discrete key m ≡ some p
          → get ℕ_discrete f p.entries ≡ none
          → write_of key f (cap_all m) ≡ write_of key f m
      kept p e n =
          let over = take (length p.entries - p.max_fields) (sort_stable ltb (keys p.entries)) in
          let same : field_write f (cap_pending p) ≡ field_write f p =
            unfold cap_pending in ground (arith, n, get-delete_fields f over p.entries) in
          ground (arith, e, get-cap_all key m, same)

  -- When a flush fails, every write that it took is pending again, except where a newer one of the same
  -- field or plain key has been queued since, which stays. Only a value can be lost, and only of a key
  -- that then has more fields than its bound.
  pub settle_flush-failed :
      (marshal : V → String) (force : Bool) (now : ℕ) (s u : Service V) (b : FlushBatch V)
      (key : String) (f : ℕ)
      → (begin_flush marshal force now s).1 ≡ some b
      → Unique String-discrete s.pending_hash
      → ((write_of key f (settle_flush b false u).0.pending_hash
            ≡ overlay (write_of key f u.pending_hash) (write_of key f s.pending_hash))
          ⊎ Overflows key f (merge_hashes s.pending_hash u.pending_hash))
        × (get String-discrete key (settle_flush b false u).0.pending_plain
            ≡ elim (get String-discrete key u.pending_plain) [
              | some p ↦ some p
              | none ↦ get String-discrete key s.pending_plain
            ])
  unfolding begin_flush batch_of settle_flush requeue_failed_writes
  settle_flush-failed marshal force now s u b key f e q =
      let hashes : b.hashes ≡ s.pending_hash = ground arith in
      let plains : b.plains ≡ s.pending_plain = ground arith in
      (
        elim (write_of-cap_all key f (merge_hashes s.pending_hash u.pending_hash)) [
          | inl same ↦ inl (
              ground
                (arith, hashes, same, write_of-merge_hashes key f s.pending_hash u.pending_hash q))
          | inr over ↦ inr over
        ],
        ground (arith, plains, get-merge_plains key s.pending_plain u.pending_plain),
      )
