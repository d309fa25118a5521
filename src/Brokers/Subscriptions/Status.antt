-- ===== src/Brokers/Subscriptions/Status.antt =====
-- internal/brokers/subscriptions.go: the reads for the status pages. The lane's name, which Stats
-- copies, is left out.
use cal_spread_backend.Base.{ℕ, ◌+◌, ltb, length, List, [], ◌∷◌, if◌then◌else◌}
use cal_spread_backend.Base.Int.{ℤ, leb_ℤ}
use cal_spread_backend.Base.Maps.{Map, keys}
use cal_spread_backend.Brokers.Subscriptions.{Owner, Counts, Coordinator, count}

pub record Stats : Type 0 where
  pub browser : ℕ
  pub scanner : ℕ
  pub strategy : ℕ
  pub analytics : ℕ
  pub tokens : ℕ
  pub leases : ℕ

-- How many entries the owner has a count in.
unfoldable pub tally : Owner → Map ℤ Counts → ℕ
tally o [] = 0
tally o ((t, e) ∷ m) = let rest = tally o m in if ltb 0 (count o e) then rest + 1 else rest

unfoldable pub stats : Coordinator → Stats
stats c = record {
  browser = tally Owner.browser c.counts;
  scanner = tally Owner.scanner c.counts;
  strategy = tally Owner.strategy c.counts;
  analytics = tally Owner.analytics c.counts;
  tokens = length c.counts;
  leases = length c.leases;
}

unfoldable pub insert_token : ℤ → List ℤ → List ℤ
insert_token t [] = t ∷ []
insert_token t (x ∷ xs) = let rest = insert_token t xs in if leb_ℤ t x then t ∷ x ∷ xs else x ∷ rest

unfoldable pub ascending : List ℤ → List ℤ
ascending [] = []
ascending (t ∷ ts) = insert_token t (ascending ts)

unfoldable pub active_tokens : Coordinator → List ℤ
active_tokens c = ascending (keys c.counts)
