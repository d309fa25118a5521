-- ===== src/Analytics/Writebehind/Disjoint.antt =====
-- internal/analytics/writebehind.go: no field of a hash is to be set and to be deleted at once.
use cal_spread_backend.Base.{
  ℕ, ◌≡◌, sym, subst, true, false, Option, none, some, List, [], ◌∷◌, String, ltb, length, ◌-◌, mem,
  ite, arith, All, ℕ_discrete, Option-cases, inl, inr,
}
use cal_spread_backend.Base.Keys.{Unique, put-Unique, put-All, All-get}
use cal_spread_backend.Base.Maps.{Map, get, put, delete, keys, get-put, get-delete}
use cal_spread_backend.Httpx.Ratelimit.{String-discrete}
use cal_spread_backend.Quotes.{sort_stable, take}
use cal_spread_backend.Analytics.Writebehind.{
  PendingHash, discard, add_stale, pending_for, set_entry, drop_entries, merge_pending,
  merge_hashes, cap_pending, cap_all, merge_entries,
}
use cal_spread_backend.Analytics.Writebehind.Requeue.{
  mem-add_stale, get-merge_entries, mem-merge_stale, get-delete_fields, get-cap_all,
}

mem-discard :
    (f g : ℕ) (fs : List ℕ)
    → mem ℕ_discrete f (discard g fs) ≡ ite (ℕ_discrete g f) false (mem ℕ_discrete f fs)
unfolding mem discard
mem-discard f g [] = ground arith
mem-discard f g (h ∷ fs) = ground (arith, mem-discard f g fs)

module _ {V : Type 0} where
  pub record IsDisjoint (p : PendingHash V) : Type 0 where
    pub apart : (f : ℕ) → mem ℕ_discrete f p.stale ≡ true → get ℕ_discrete f p.entries ≡ none

  pub set_entry-IsDisjoint :
      (f : ℕ) (v : V) (p : PendingHash V) → IsDisjoint p → IsDisjoint (set_entry f v p)
  set_entry-IsDisjoint f v p h = record {
    apart = λ g e.
        ground (arith, h.apart g, mem-discard g f p.stale, get-put ℕ_discrete f g v p.entries);
  }

  pub drop_entries-IsDisjoint :
      (fs : List ℕ) (p : PendingHash V) → IsDisjoint p → IsDisjoint (drop_entries fs p)
  unfolding drop_entries
  drop_entries-IsDisjoint [] p h = h
  drop_entries-IsDisjoint (f ∷ fs) p h =
      drop_entries-IsDisjoint fs
        (record p { entries = delete ℕ_discrete f p.entries; stale = add_stale f p.stale })
        (record {
          apart = λ g e.
              ground
                (arith, h.apart g, mem-add_stale g f p.stale, get-delete ℕ_discrete f g p.entries);
        })

  merge_pending-IsDisjoint :
      (old cur : PendingHash V)
      → IsDisjoint old
      → IsDisjoint cur
      → IsDisjoint (merge_pending old cur)
  unfolding merge_pending
  merge_pending-IsDisjoint old cur h k = record {
    apart = λ f e. ground (
      arith,
      k.apart f,
      h.apart f,
      get-merge_entries f old.entries cur.stale cur.entries,
      mem-merge_stale f old.stale (merge_entries old.entries cur.stale cur.entries) cur.stale,
    );
  }

  cap_pending-IsDisjoint : (p : PendingHash V) → IsDisjoint p → IsDisjoint (cap_pending p)
  unfolding cap_pending
  cap_pending-IsDisjoint p h = record {
    apart = λ f e. ground (
      arith,
      h.apart f,
      get-delete_fields f
          (take (length p.entries - p.max_fields) (sort_stable ltb (keys p.entries))) p.entries,
    );
  }

  abbrev pub Apart : String × PendingHash V → Type 0
  Apart e = IsDisjoint e.1

  -- What is kept of the hashes: one entry for each key, whose writes are apart.
  abbrev pub Tidy : Map String (PendingHash V) → Type 0
  Tidy m = Unique String-discrete m × All Apart m

  pub put-Tidy :
      (key : String) (p : PendingHash V) (m : Map String (PendingHash V))
      → IsDisjoint p
      → Tidy m
      → Tidy (put String-discrete key p m)
  put-Tidy key p m h t =
      (put-Unique String-discrete key p m t.0, put-All String-discrete Apart key p m h t.1)

  pub pending_for-IsDisjoint :
      (key : String) (ttl max : ℕ) (m : Map String (PendingHash V))
      → Tidy m
      → IsDisjoint (pending_for key ttl max m)
  unfolding pending_for mem get
  pending_for-IsDisjoint key ttl max m t = elim (Option-cases (get String-discrete key m)) [
    | inl n ↦ record { apart = λ f e. ground (arith, n) }
    | inr (p, e) ↦
        let h : IsDisjoint p = All-get String-discrete Apart key p m t.1 e in
        record { apart = λ f a. ground (arith, e, h.apart f) }
  ]

  pub merge_hashes-Tidy :
      (m cur : Map String (PendingHash V)) → All Apart m → Tidy cur → Tidy (merge_hashes m cur)
  unfolding merge_hashes
  merge_hashes-Tidy [] cur a t = t
  merge_hashes-Tidy ((key, old) ∷ m) cur a t = elim (Option-cases (get String-discrete key cur)) [
    | inl n ↦
        subst
          (λ (c : Option (PendingHash V)). Tidy (
            merge_hashes m (elim c [
              | none ↦ put String-discrete key old cur
              | some p ↦ put String-discrete key (merge_pending old p) cur
            ])))
          (sym n)
          (merge_hashes-Tidy m (put String-discrete key old cur) a.1 (put-Tidy key old cur a.0 t))
    | inr (p, e) ↦
        subst
          (λ (c : Option (PendingHash V)). Tidy (
            merge_hashes m (elim c [
              | none ↦ put String-discrete key old cur
              | some p ↦ put String-discrete key (merge_pending old p) cur
            ])))
          (sym e)
          (merge_hashes-Tidy m (put String-discrete key (merge_pending old p) cur) a.1 (
            put-Tidy key (merge_pending old p) cur
              (merge_pending-IsDisjoint old p a.0 (All-get String-discrete Apart key p cur t.1 e))
              t))
  ]

  pub cap_all-Tidy : (m : Map String (PendingHash V)) → Tidy m → Tidy (cap_all m)
  unfolding cap_all
  cap_all-Tidy [] t = (tt, tt)
  cap_all-Tidy ((key, p) ∷ m) t =
      let rest = cap_all-Tidy m (t.0.1, t.1.1) in
      ((ground (arith, get-cap_all key m, t.0.0), rest.0), (cap_pending-IsDisjoint p t.1.0, rest.1))
