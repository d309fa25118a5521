-- ===== src/Boundedcache.antt =====
-- internal/boundedcache/boundedcache.go: the cache with a lifetime and a bound. An element of Go's
-- linked list is its number with its entry, and the map leads to the number. Times are nanoseconds.
pub mod Bounds
pub mod Tests
use cal_spread_backend.Base.{
  ℕ, ◌+◌, ◌≡◌, Bool, true, false, Option, none, some, List, [], ◌∷◌, ◌++◌, leb, ltb, ◌==◌, length,
  if◌then◌else◌, is_some,
}
use cal_spread_backend.Base.Maps.{Map, get, put, delete}

pub record Element (K V : Type 0) : Type 0 where
  pub id : ℕ
  pub key : K
  pub at : ℕ
  pub value : V

-- The oldest element comes first.
pub record Cache (K V : Type 0) : Type 0 where
  pub ttl : ℕ
  pub max : ℕ
  pub order : List (Element K V)
  pub items : Map K ℕ
  pub next_id : ℕ

module _ {K V : Type 0} where
  unfoldable pub new_cache : ℕ → ℕ → Cache K V
  new_cache ttl max_entries = record {
    ttl = ttl;
    max = if ltb max_entries 1 then 1 else max_entries;
    order = [];
    items = [];
    next_id = 0;
  }

  unfoldable pub find_element : ℕ → List (Element K V) → Option (Element K V)
  find_element id [] = none
  find_element id (e ∷ es) = if e.id == id then some e else find_element id es

  unfoldable pub remove_element : ℕ → List (Element K V) → List (Element K V)
  remove_element id [] = []
  remove_element id (e ∷ es) =
      let others = remove_element id es in if e.id == id then es else e ∷ others

  -- `now - at >= ttl`, and in the sweep `!at.After(now - ttl)`.
  abbrev pub is_expired : ℕ → ℕ → Element K V → Bool
  is_expired ttl now e = leb (e.at + ttl) now

  abbrev pub without : Option ℕ → List (Element K V) → List (Element K V)
  without none es = es
  without (some id) es = remove_element id es

module _ {K : Type 0} (dec : Discrete K) {V : Type 0} where
  unfoldable pub get_value : K → ℕ → Cache K V → Cache K V × Option V
  get_value k now c = elim (get dec k c.items) [
    | none ↦ (c, none)
    | some id ↦ elim (find_element id c.order) [
      | none ↦ (c, none)
      | some e ↦
          if is_expired c.ttl now e
          then (record c { order = remove_element id c.order; items = delete dec k c.items }, none)
          else (c, some e.value)
    ]
  ]

  -- The sweep over the list: what stays in the list, and in the map.
  unfoldable pub sweep_expired : ℕ → ℕ → List (Element K V) → Map K ℕ → List (Element K V) × Map K ℕ
  sweep_expired ttl now [] m = ([], m)
  sweep_expired ttl now (e ∷ es) m =
      let dropped = sweep_expired ttl now es (delete dec e.key m) in
      let kept = sweep_expired ttl now es m in
      if is_expired ttl now e then dropped else (e ∷ kept.0, kept.1)

  -- The evictions from the front while the list is too long.
  unfoldable pub evict : ℕ → List (Element K V) → Map K ℕ → List (Element K V) × Map K ℕ
  evict max [] m = ([], m)
  evict max (e ∷ es) m =
      let rest = evict max es (delete dec e.key m) in
      if ltb max (length (e ∷ es)) then rest else (e ∷ es, m)

  -- The clock is read twice: for the entry, and for the sweep.
  unfoldable pub set_value : K → V → ℕ → ℕ → Cache K V → Cache K V
  set_value k v now later c =
      let pushed =
        without (get dec k c.items) c.order
        ++ record { id = c.next_id; key = k; at = now; value = v } ∷ [] in
      let swept = sweep_expired c.ttl later pushed (put dec k c.next_id c.items) in
      let evicted = evict c.max swept.0 swept.1 in
      record c { order = evicted.0; items = evicted.1; next_id = c.next_id + 1 }

  unfoldable pub delete_value : K → Cache K V → Cache K V × Bool
  delete_value k c = elim (get dec k c.items) [
    | none ↦ (c, false)
    | some id ↦ (record c { order = remove_element id c.order; items = delete dec k c.items }, true)
  ]

  abbrev pub len : Cache K V → ℕ
  len c = length c.order

  unfoldable pub clear_cache : Cache K V → Cache K V
  clear_cache c = record c { order = []; items = [] }
