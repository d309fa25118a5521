-- ===== src/Httpx/Ratelimit.antt =====
-- internal/httpx/ratelimit.go: the fixed window for each client. Times are epoch milliseconds.
pub mod Sweeping
pub mod Tests
use mathlib.Core.Option
use text.Mathlib.Text.{◌==◌ as str_eq}
use text.Mathlib.TextEquality.{eq_iff}
use cal_spread_backend.Base.{
  ℕ, ◌+◌, ◌-◌, ◌/◌, ◌≡◌, Bool, true, false, not, ◌∙◌, sym, String, Option, none, some, List, [],
  ◌∷◌, leb, ltb, if◌then◌else◌, Bool-cases, inl, inr, arith,
}
use cal_spread_backend.Base.Maps.{Map, get, put}

unfoldable pub String-discrete : Discrete String
String-discrete s t = elim (Bool-cases (str_eq s t)) [
  | inl same ↦ yes ((eq_iff s t).0 same)
  | inr other ↦ no (λ p. absurd (ground (arith, other, (eq_iff s t).1 p)))
]

pub record Bucket : Type 0 where
  pub count : ℕ
  pub reset_at : ℕ

pub record Limiter : Type 0 where
  pub window_ms : ℕ
  pub max : ℕ
  pub message : String
  pub buckets : Map String Bucket
  pub last_sweep : ℕ

unfoldable pub new_limiter : ℕ → ℕ → String → ℕ → Limiter
new_limiter window max message now = record {
  window_ms = window;
  max = max;
  message = if str_eq message "" then "Too many requests. Please slow down." else message;
  buckets = [];
  last_sweep = now;
}

-- The deletions while ranging over the map.
unfoldable pub drop_expired : ℕ → Map String Bucket → Map String Bucket
drop_expired now [] = []
drop_expired now ((ip, b) ∷ m) =
    let rest = drop_expired now m in if ltb b.reset_at now then rest else (ip, b) ∷ rest

unfoldable pub sweep : ℕ → Limiter → Limiter
sweep now l =
    if ltb now (l.last_sweep + l.window_ms)
    then l
    else record l { last_sweep = now; buckets = drop_expired now l.buckets }

-- The bucket that counts the request: the client's, or a new one.
unfoldable pub bucket_for : ℕ → ℕ → Option Bucket → Bucket
bucket_for now window none = record { count = 0; reset_at = now + window }
bucket_for now window (some b) =
    if ltb b.reset_at now then record { count = 0; reset_at = now + window } else b

-- The header's seconds, rounded up.
abbrev pub retry_after : ℕ → Bucket → ℕ
retry_after now b = (b.reset_at - now + 999) / 1000

-- Whether the request may proceed, and the header's seconds.
abbrev pub Answer : Type 0
Answer = Bool × ℕ

unfoldable pub answer : ℕ → ℕ → Bucket → Answer
answer max now b = if ltb max b.count then (false, retry_after now b) else (true, 0)

-- The client's bucket with the request counted.
abbrev pub counted : String → ℕ → Limiter → Bucket
counted ip now l =
    let b = bucket_for now l.window_ms (get String-discrete ip l.buckets) in
    record b { count = b.count + 1 }

-- The part of `Allow` after the sweep.
unfoldable pub count_request : String → ℕ → Limiter → Limiter × Answer
count_request ip now l = (
  record l { buckets = put String-discrete ip (counted ip now l) l.buckets },
  answer l.max now (counted ip now l),
)

unfoldable pub allow : String → ℕ → Limiter → Limiter × Answer
allow ip now l = count_request ip now (sweep now l)
