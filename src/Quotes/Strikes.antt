-- ===== src/Quotes/Strikes.antt =====
-- internal/quotes/strikes.go: the strikes around the spot.
pub mod Nearest
use cal_spread_backend.Base.{
  ℕ, zero, suc, ◌+◌, ◌-◌, ◌/◌, Bool, true, false, ◌&&◌, ◌||◌, not, Option, none, some, List, [],
  ◌∷◌, leb, ltb, length, drop, if◌then◌else◌,
}
use cal_spread_backend.Base.Float.{Float64}
use cal_spread_backend.Quotes.{sort_stable, take}

module _ (fl : Float64) where
  open fl use {Num, le, lt, add, sub, mul, neg, of_nat}

  -- Go's `math.Abs`.
  abbrev pub abs : Num → Num
  abs x = if lt x (of_nat 0) then neg x else x

  abbrev pub equal : Num → Num → Bool
  equal a b = le a b && le b a

  unfoldable pub seen : Num → List Num → Bool
  seen x [] = false
  seen x (y ∷ ys) = if equal x y then true else seen x ys

  unfoldable pub unique_from : List Num → List Num → List Num
  unique_from before [] = []
  unique_from before (s ∷ ss) =
      let fresh = s ∷ unique_from (s ∷ before) ss in
      let known = unique_from before ss in if seen s before then known else fresh

  -- Go's `sort.Float64s`, which puts a NaN before every number.
  abbrev pub ahead : Num → Num → Bool
  ahead a b = lt a b || (not (le a a) && le b b)

  abbrev pub sorted : List Num → List Num
  sorted xs = sort_stable ahead xs

  unfoldable pub unique_sorted : List Num → List Num
  unique_sorted strikes = sorted (unique_from [] strikes)

  abbrev pub distance : Num → Num → Num
  distance spot s = abs (sub s spot)

  -- The loop of `AtmStrike`.
  unfoldable pub nearest_from : Num → Num → List Num → Num
  nearest_from spot best [] = best
  nearest_from spot best (s ∷ ss) =
      nearest_from spot (if lt (distance spot s) (distance spot best) then s else best) ss

  abbrev pub nearest_of : Num → List Num → Option Num
  nearest_of spot [] = none
  nearest_of spot (s ∷ ss) = some (nearest_from spot s (s ∷ ss))

  unfoldable pub atm_strike : List Num → Num → Option Num
  atm_strike strikes spot = nearest_of spot (sorted strikes)

  abbrev pub gaps : List Num → List Num
  gaps [] = []
  gaps (x ∷ []) = []
  gaps (x ∷ y ∷ ys) = sub y x ∷ gaps (y ∷ ys)

  abbrev pub nth : ℕ → List Num → Num
  nth i [] = of_nat 0
  nth zero (x ∷ xs) = x
  nth (suc i) (x ∷ xs) = nth i xs

  unfoldable pub strike_step : List Num → Num
  strike_step strikes =
      let g = sorted (gaps (unique_sorted strikes)) in
      if ltb (length (unique_sorted strikes)) 2 then of_nat 0 else nth (length g / 2) g

  -- The number of strikes before the first that is not less: Go's binary search in a sorted list.
  unfoldable pub search : Num → List Num → ℕ
  search x [] = 0
  search x (y ∷ ys) = let rest = search x ys in if le x y then 0 else rest + 1

  -- The strikes from `lo` up to and without `hi`.
  abbrev pub slice : ℕ → ℕ → List Num → List Num
  slice lo hi xs = take (hi - lo) (drop lo xs)

  unfoldable pub select_strike_window : List Num → Num → ℕ → Option (Num × List Num)
  select_strike_window strikes spot each_side =
      let all = unique_sorted strikes in
      elim (atm_strike all spot) [
        | none ↦ none
        | some atm ↦
            let idx = search atm all in
            let hi =
              if leb (idx + each_side + 1) (length all) then idx + each_side + 1 else length all in
            some (atm, slice (idx - each_side) hi all)
      ]

  -- Half a step is given with the hysteresis added, as `0.5 + hysteresis`.
  unfoldable pub should_recentre_window : Num → Num → Num → Num → Bool
  should_recentre_window current_atm spot step half_and_more =
      if not (lt (of_nat 0) step)
      then false
      else lt (mul step half_and_more) (abs (sub spot current_atm))
