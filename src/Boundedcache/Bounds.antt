-- ===== src/Boundedcache/Bounds.antt =====
-- What internal/boundedcache/boundedcache.go keeps, and for how long.
use cal_spread_backend.Base.{
  ℕ, ◌+◌, ◌≤◌, ◌<◌, List, [], ◌∷◌, ◌++◌, ltb, length, All, arith, Bool-cases, inl, inr,
}
use cal_spread_backend.Base.Maps.{Map, get, put, delete}
use cal_spread_backend.Boundedcache.{
  Element, Cache, is_expired, sweep_expired, evict, set_value, without,
}

module _ {K : Type 0} (dec : Discrete K) {V : Type 0} where
  -- The element is younger than the lifetime.
  abbrev pub IsLive : ℕ → ℕ → Element K V → Type 0
  IsLive ttl now e = now < e.at + ttl

  evict-length :
      (max : ℕ) (es : List (Element K V)) (m : Map K ℕ) → length (evict dec max es m).0 ≤ max
  unfolding evict
  evict-length max [] m = omega arith
  evict-length max (e ∷ es) m = ground (arith, evict-length max es (delete dec e.key m))

  evict-All :
      (P : Element K V → Type 0) (max : ℕ) (es : List (Element K V)) (m : Map K ℕ)
      → All P es
      → All P (evict dec max es m).0
  unfolding evict
  evict-All P max [] m h = tt
  evict-All P max (e ∷ es) m h = elim (Bool-cases (ltb max (length (e ∷ es)))) [
    | inl long ↦ rw long (evict-All P max es (delete dec e.key m) h.1)
    | inr short ↦ rw short h
  ]

  sweep_expired-IsLive :
      (ttl now : ℕ) (es : List (Element K V)) (m : Map K ℕ)
      → All (IsLive ttl now) (sweep_expired dec ttl now es m).0
  unfolding sweep_expired
  sweep_expired-IsLive ttl now [] m = tt
  sweep_expired-IsLive ttl now (e ∷ es) m = elim (Bool-cases (is_expired ttl now e)) [
    | inl old ↦ rw old (sweep_expired-IsLive ttl now es (delete dec e.key m))
    | inr live ↦ rw live (ground (arith, live), sweep_expired-IsLive ttl now es m)
  ]

  -- After an entry has been set, the cache holds at most as many entries as its bound, and none that
  -- had expired when it was swept.
  pub set_value_lem :
      (k : K) (v : V) (now later : ℕ) (c : Cache K V)
      → (length (set_value dec k v now later c).order ≤ c.max)
        × All (IsLive c.ttl later) (set_value dec k v now later c).order
  unfolding set_value
  set_value_lem k v now later c =
      let pushed =
        without (get dec k c.items) c.order
        ++ record { id = c.next_id; key = k; at = now; value = v } ∷ [] in
      let swept = sweep_expired dec c.ttl later pushed (put dec k c.next_id c.items) in
      (
        evict-length c.max swept.0 swept.1,
        evict-All (IsLive c.ttl later) c.max swept.0 swept.1
            (sweep_expired-IsLive c.ttl later pushed (put dec k c.next_id c.items)),
      )
