-- ===== src/Httpx/Ratelimit/Tests.antt =====
-- A concrete run of the limiter.
use cal_spread_backend.Base.{ℕ, ◌≡◌, String, List, [], ◌∷◌, arith}
use cal_spread_backend.Httpx.Ratelimit.{new_limiter}
use cal_spread_backend.Httpx.Ratelimit.Sweeping.{answers, unswept, answers-unswept}

abbrev requests : List (String × ℕ)
requests = ("10.0.0.1", 5) ∷ ("10.0.0.1", 7) ∷ ("10.0.0.2", 1007) ∷ ("10.0.0.1", 2000) ∷ []

answers-unswept_example :
    answers requests (new_limiter 1000 1 "" 0) ≡ unswept requests (new_limiter 1000 1 "" 0)
answers-unswept_example =
    answers-unswept 1000 1 "" 0 requests
      (omega arith, (omega arith, (omega arith, (omega arith, tt))))
