-- ===== src/Brokers/Lane.antt =====
-- internal/brokers/lane.go: the ring of per-second buckets. `PerSecond` divides the total by the
-- number of buckets that it counts and rounds; the model has the two numbers.
pub mod Ring
use cal_spread_backend.Base.{
  ℕ, zero, suc, ◌+◌, ◌-◌, ◌/◌, ◌%◌, Bool, true, false, ◌||◌, List, [], ◌∷◌, leb, ltb, ◌==◌,
  if◌then◌else◌,
}

pub record TickRateCounter : Type 0 where
  pub seconds : ℕ
  pub buckets : List ℕ
  pub bucket_at : List ℕ
  pub cursor : ℕ

abbrev pub zeros : ℕ → List ℕ
zeros zero = []
zeros (suc n) = 0 ∷ zeros n

-- The element at an index in range.
abbrev pub at_index : ℕ → List ℕ → ℕ
at_index i [] = 0
at_index zero (x ∷ xs) = x
at_index (suc i) (x ∷ xs) = at_index i xs

abbrev pub set_index : ℕ → ℕ → List ℕ → List ℕ
set_index i v [] = []
set_index zero v (x ∷ xs) = v ∷ xs
set_index (suc i) v (x ∷ xs) = x ∷ set_index i v xs

unfoldable pub new_tick_rate_counter : ℕ → TickRateCounter
new_tick_rate_counter seconds =
    let n = if seconds == 0 then 10 else seconds in
    record { seconds = n; buckets = zeros n; bucket_at = zeros n; cursor = 0 }

unfoldable pub mark : ℕ → ℕ → TickRateCounter → TickRateCounter
mark count now t =
    let second = now / 1000 in
    let next = (t.cursor + 1) % t.seconds in
    if at_index t.cursor t.bucket_at == second
    then record t { buckets = set_index t.cursor (at_index t.cursor t.buckets + count) t.buckets }
    else record t {
      cursor = next;
      bucket_at = set_index next second t.bucket_at;
      buckets = set_index next count t.buckets;
    }

-- The bucket is not counted.
abbrev pub outside : ℕ → ℕ → ℕ → Bool
outside seconds newest at = at == 0 || leb newest at || ltb seconds (newest - at)

-- The loop of `PerSecond`, over the buckets side by side: the total and the number counted.
unfoldable pub sum_from : ℕ → ℕ → List ℕ → List ℕ → ℕ × ℕ
sum_from seconds newest [] bs = (0, 0)
sum_from seconds newest (a ∷ as') [] = (0, 0)
sum_from seconds newest (a ∷ as') (b ∷ bs) =
    let (total, counted) = sum_from seconds newest as' bs in
    if outside seconds newest a then (total, counted) else (total + b, counted + 1)

unfoldable pub window_sum : ℕ → TickRateCounter → ℕ × ℕ
window_sum now t = sum_from t.seconds (now / 1000) t.bucket_at t.buckets

unfoldable pub reset : TickRateCounter → TickRateCounter
reset t = record t { buckets = zeros t.seconds; bucket_at = zeros t.seconds; cursor = 0 }
