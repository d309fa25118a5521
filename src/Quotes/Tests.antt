-- ===== src/Quotes/Tests.antt =====
-- Concrete runs of the quote store, in thousandths.
use cal_spread_backend.Base.{
  ℕ, ◌+◌, ◌++◌, ◌⊎◌, ◌*◌, ◌≤◌, ◌≡◌, refl, true, some, none, Option, List, [], ◌∷◌, length, All, mem,
  ℕ_discrete,
}
use cal_spread_backend.Base.Filter.{Chain}
use cal_spread_backend.Base.Int.{ℤ, pos, ℤ-discrete}
use cal_spread_backend.Base.Maps.{get}
use cal_spread_backend.Base.Milli.{milli}
use cal_spread_backend.Spike.Quote.{DepthLevel, Tick}
use cal_spread_backend.Quotes.Strikes.{atm_strike, nearest_from}
use cal_spread_backend.Quotes.Strikes.Nearest.{NoNearer, atm_strike_nearest}
use cal_spread_backend.Quotes.{
  sort_stable, insert, MathLib, new_store, sanitize, apply_ticks, authoritative,
}
use mathlib.Core.List.{Perm}
use cal_spread_backend.Quotes.Kept.{Selects, NotBetter, sanitize_lem}
use cal_spread_backend.Quotes.Versions.{
  Use, applies, forgets, new_generation, use_all, Accounted, use_all-Accounted,
  apply_ticks_unchanged,
}

abbrev Num : Type 0
Num = Option ℤ

abbrev rupees : ℕ → Num
rupees n = some (pos (n * 1000))

abbrev maths : MathLib milli
maths = record { floor = λ x. x; safe_integer = λ x. true }

abbrev level : ℕ → ℕ → DepthLevel Num
level price qty = record { price = rupees price; qty = rupees qty; orders = rupees 1 }

abbrev ladder : List (DepthLevel Num)
ladder = level 10 5 ∷ level 0 5 ∷ level 12 5 ∷ level 11 0 ∷ level 12 7 ∷ []

abbrev tick : ℕ → Option (List (DepthLevel Num)) → Tick Num
tick token bids = record {
  token = pos token;
  last_price = rupees 11;
  close_price = rupees 0;
  oi = rupees 0;
  bid = rupees 0;
  ask = rupees 0;
  bids = bids;
  asks = none;
  depth_updated = none;
  exchange_ts = none;
  average_price = none;
  price_updated = none;
  average_updated = none;
  namespace = none;
}

sanitize_lem_example :
    (good : List (DepthLevel Num)) × (cut : List (DepthLevel Num)) × Selects milli maths ladder good
    × Perm ((sanitize milli maths ladder true).0 ++ cut) good
    × Chain (NotBetter milli maths true) ((sanitize milli maths ladder true).0 ++ cut)
    × (length (sanitize milli maths ladder true).0 ≤ 5)
    × ((cut ≡ []) ⊎ (length (sanitize milli maths ladder true).0 ≡ 5))
    × (length good + (sanitize milli maths ladder true).1 ≡ length ladder)
sanitize_lem_example = sanitize_lem milli maths ladder true

abbrev session : List (Use Num)
session =
    applies 5 (tick 1 (some ladder) ∷ tick 2 none ∷ tick 3 (some []) ∷ [])
    ∷ forgets (pos 2 ∷ [])
    ∷ new_generation
    ∷ applies 9 (tick 1 (some ladder) ∷ [])
    ∷ []

use_all-Accounted_example : Accounted milli maths (use_all milli maths session new_store)
use_all-Accounted_example = use_all-Accounted milli maths session

apply_ticks_unchanged_example :
    get ℤ-discrete
      (pos 2)
      (apply_ticks milli maths 5 (tick 1 (some ladder) ∷ tick 2 none ∷ []) new_store).0.quotes
    ≡ none
unfolding apply_ticks mem authoritative ℤ-discrete ℕ_discrete new_store get
apply_ticks_unchanged_example =
    apply_ticks_unchanged milli maths 5 (tick 1 (some ladder) ∷ tick 2 none ∷ []) new_store (pos 2)
      refl

abbrev strikes : List Num
strikes = rupees 120 ∷ rupees 100 ∷ rupees 110 ∷ []

atm_strike_nearest_example : All (NoNearer milli (rupees 112) (rupees 110)) strikes
unfolding atm_strike sort_stable insert nearest_from
atm_strike_nearest_example = atm_strike_nearest milli strikes (rupees 112) (rupees 110) refl
