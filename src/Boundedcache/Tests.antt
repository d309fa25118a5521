-- ===== src/Boundedcache/Tests.antt =====
-- A concrete cache.
use cal_spread_backend.Base.{ℕ, ◌≤◌, length, All, ℕ_discrete}
use cal_spread_backend.Boundedcache.{Cache, new_cache, set_value}
use cal_spread_backend.Boundedcache.Bounds.{IsLive, set_value_lem}

abbrev filled : Cache ℕ ℕ
filled = set_value ℕ_discrete 2 20 5 5 (set_value ℕ_discrete 1 10 0 0 (new_cache 10 2))

set_value_lem_example :
    (length (set_value ℕ_discrete 3 30 12 12 filled).order ≤ filled.max)
    × All (IsLive ℕ_discrete filled.ttl 12) (set_value ℕ_discrete 3 30 12 12 filled).order
set_value_lem_example = set_value_lem ℕ_discrete 3 30 12 12 filled
