-- ===== src/Spike/Engine/Bars.antt =====
-- internal/spike/engine.go and actions.go: the one-minute bars.
use mathlib.Core.Option
use text.Mathlib.Text.{◌==◌ as str_eq}
use cal_spread_backend.Base.{
  ℕ, ◌+◌, Bool, true, false, ◌&&◌, ◌||◌, Option, none, some, String, [], ◌∷◌, leb, ◌==◌,
  if◌then◌else◌, ite, ℕ_discrete,
}
use cal_spread_backend.Base.Maps.{Map, get, put, delete}
use cal_spread_backend.Base.Float.{Float64}
use cal_spread_backend.Spike.Types.{Symbol, Symbol-discrete, Sample, Bar}
use cal_spread_backend.Spike.Rules.{bucket_end}
use cal_spread_backend.Spike.Engine.{Engine, BarKey}

-- Two keys are one if their texts are: the symbol has no colon, and the time is a numeral.
unfoldable pub same_key : BarKey → BarKey → Bool
same_key (s, d, t) (s', d', t') = ite (Symbol-discrete s s') true false && str_eq d d' && t == t'

module _ {V : Type 0} where
  unfoldable pub put_key : BarKey → V → Map BarKey V → Map BarKey V
  put_key k v [] = (k, v) ∷ []
  put_key k v ((j, w) ∷ m) = if same_key j k then (k, v) ∷ m else (j, w) ∷ put_key k v m

  unfoldable pub get_key : BarKey → Map BarKey V → Option V
  get_key k [] = none
  get_key k ((j, w) ∷ m) = if same_key j k then some w else get_key k m

module _ (fl : Float64) where
  open fl use {Num, lt}

  abbrev pub key_of : Bar Num → BarKey
  key_of b = (b.symbol, b.day, b.sample.t)

  -- `e.bars[symbol][t] = bar`.
  unfoldable pub store_bar :
      Symbol → Bar Num → Map Symbol (Map ℕ (Bar Num)) → Map Symbol (Map ℕ (Bar Num))
  store_bar s b m =
      put Symbol-discrete s
        (put ℕ_discrete b.sample.t b (Option.get_or (get Symbol-discrete s m) [])) m

  -- The body of the loop of `completeBarsLocked`.
  unfoldable pub complete_one : ℕ → Bool → Symbol → Bar Num → Engine Num → Engine Num
  complete_one now force s b e =
      if leb b.sample.t now || force
      then record e {
        bars = store_bar s b e.bars;
        pending_bars = put_key (s, b.day, b.sample.t) b e.pending_bars;
        forming = delete Symbol-discrete s e.forming;
      }
      else e

  -- The loop over the forming bars.
  unfoldable pub complete_from : ℕ → Bool → Map Symbol (Bar Num) → Engine Num → Engine Num
  complete_from now force [] e = e
  complete_from now force ((s, b) ∷ rest) e =
      complete_from now force rest (complete_one now force s b e)

  unfoldable pub complete_bars : ℕ → Bool → Engine Num → Engine Num
  complete_bars now force e = complete_from now force e.forming e

  -- The bar that a sample extends: the forming one, or a new one for a new minute.
  unfoldable pub bar_at : Symbol → Sample Num → ℕ → Engine Num → Bar Num
  bar_at s sample now e =
      let end = bucket_end (now + 1) 1 in
      let fresh : Bar Num = record {
        sample = sample;
        symbol = s;
        day = e.day;
        low = sample.premium;
        low_at = now;
        high = sample.premium;
        high_at = now;
      } in
      elim (get Symbol-discrete s e.forming) [
        | none ↦ fresh
        | some b ↦ if b.sample.t == end then b else fresh
      ]

  -- The extremes after the sample.
  unfoldable pub widen : Sample Num → ℕ → Bar Num → Bar Num
  widen sample now b =
      let lower =
        if lt sample.premium b.low then record b { low = sample.premium; low_at = now } else b in
      if lt lower.high sample.premium
      then record lower { high = sample.premium; high_at = now }
      else lower

  -- The end of `evaluateLocked`: the sample goes into the forming bar.
  unfoldable pub form_bar : Symbol → Sample Num → ℕ → Engine Num → Engine Num
  form_bar s sample now e =
      let b = bar_at s sample now e in
      let b' = record b { sample = record sample { t = bucket_end (now + 1) 1 } } in
      record e { forming = put Symbol-discrete s (widen sample now b') e.forming }

  -- `flushBars` takes the pending bars, saves them without the lock, and if that fails puts back
  -- those that have no newer version.
  unfoldable pub take_pending : Engine Num → Engine Num × Map BarKey (Bar Num)
  take_pending e = (record e { pending_bars = [] }, e.pending_bars)

  unfoldable pub restore : Map BarKey (Bar Num) → Map BarKey (Bar Num) → Map BarKey (Bar Num)
  restore [] m = m
  restore ((k, b) ∷ rest) m =
      restore rest (elim (get_key k m) [ none ↦ put_key k b m | some _ ↦ m ])

  unfoldable pub flush_failed : Map BarKey (Bar Num) → String → Engine Num → Engine Num
  flush_failed taken error e = record e {
    pending_bars = restore taken e.pending_bars;
    last_error = error;
  }
