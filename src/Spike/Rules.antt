-- ===== src/Spike/Rules.antt =====
-- internal/spike/types.go and universe.go: the entry rule, the hedge and the profit of a spread.
pub mod Entry
pub mod Signals
use mathlib.Core.Option
use cal_spread_backend.Base.{
  ℕ, zero, suc, ◌+◌, ◌-◌, ◌*◌, ◌/◌, Bool, true, false, ◌&&◌, ◌||◌, not, Option, none, some, List,
  [], ◌∷◌, ltb, if◌then◌else◌, ite, String,
}
use cal_spread_backend.Base.Int.{ℤ, ℤ-discrete}
use cal_spread_backend.Base.Float.{Float64}
use cal_spread_backend.Spike.Types.{
  Symbol, Sample, Signal, Trade, Direction, call_credit, put_credit, window_ms, quote_age_ms,
  hedge_steps,
}

-- internal/market/market.go.
pub record Instrument (Num : Type 0) : Type 0 where
  pub instrument_token : ℤ
  pub exchange_token : ℤ
  pub tradingsymbol : String
  pub name : String
  pub last_price : Num
  pub expiry : String
  pub strike : Num
  pub tick_size : Num
  pub lot_size : Num
  pub instrument_type : String
  pub segment : String
  pub exchange : String

pub record Pair (Num : Type 0) : Type 0 where
  pub ce : Instrument Num
  pub pe : Instrument Num

pub record Universe (Num : Type 0) : Type 0 where
  pub symbol : Symbol
  pub expiry : String
  pub pairs : List (Pair Num)
  pub calls : List (Instrument Num)
  pub puts : List (Instrument Num)

-- The end of the bucket of so many minutes (at least one) that holds the time, on the clock of IST.
unfoldable pub bucket_end : ℕ → ℕ → ℕ
bucket_end at minutes =
    let step = minutes * 60000 in
    let offset = 330 * 60000 in (at + offset + step - 1) / step * step - offset

-- `i + step`, with its test `at >= 0` for a negative step.
abbrev pub stepped : Direction → ℕ → Option ℕ
stepped call_credit i = some (i + hedge_steps)
stepped put_credit i = if ltb i hedge_steps then none else some (i - hedge_steps)

module _ {Num : Type 0} where
  -- The element at an index, and none out of range.
  abbrev pub get_elem? : List (Instrument Num) → ℕ → Option (Instrument Num)
  get_elem? [] i = none
  get_elem? (x ∷ xs) zero = some x
  get_elem? (x ∷ xs) (suc i) = get_elem? xs i

  -- The index of the first option with the token.
  unfoldable pub position : ℤ → List (Instrument Num) → Option ℕ
  position token [] = none
  position token (x ∷ xs) =
      ite (ℤ-discrete x.instrument_token token) (some 0) (Option.map suc (position token xs))

  abbrev pub short_of : Direction → Pair Num → Instrument Num
  short_of call_credit p = p.ce
  short_of put_credit p = p.pe

  abbrev pub options_of : Direction → Universe Num → List (Instrument Num)
  options_of call_credit u = u.calls
  options_of put_credit u = u.puts

  -- The short option and its hedge.
  unfoldable pub hedge_for :
      Universe Num → Pair Num → Direction → Option (Instrument Num × Instrument Num)
  unfolding position
  hedge_for u selected d =
      let options = options_of d u in
      elim (position (short_of d selected).instrument_token options) [
        | none ↦ none
        | some i ↦ elim (stepped d i) [
          | none ↦ none
          | some at ↦ elim (get_elem? options at) [
            | none ↦ none
            | some hedge ↦ some (short_of d selected, hedge)
          ]
        ]
      ]

module _ (fl : Float64) where
  open fl use {Num, le, lt, finite, add, sub, mul, div, neg, of_nat, nano}

  -- `x > 0`.
  abbrev pub positive : Num → Bool
  positive x = lt (of_nat 0) x

  abbrev pub minimum_move_pct : Num
  minimum_move_pct = of_nat 5

  -- The guard of `Qualify`: it goes on if this holds.
  unfoldable pub comparable : Sample Num → Sample Num → Bool
  comparable previous current =
      ltb 0 previous.t
      && not (ltb current.t previous.t)
      && not (ltb quote_age_ms (current.t - previous.t))
      && not (le previous.vwap (of_nat 0))
      && not (le current.vwap (of_nat 0))
      && finite current.premium
      && finite current.vwap

  unfoldable pub crossing : Sample Num → Sample Num → Option Direction
  crossing previous current =
      if le previous.premium previous.vwap
        && lt current.vwap current.premium
        && lt previous.premium current.premium
      then some call_credit
      else if le previous.vwap previous.premium
          && lt current.premium current.vwap
          && lt current.premium previous.premium
      then some put_credit
      else none

  -- A sample that may be the reference: the loop does not skip it.
  unfoldable pub eligible : Sample Num → Sample Num → Bool
  eligible current s =
      ltb s.t current.t
      && not (ltb window_ms (current.t - s.t))
      && not (le s.premium (of_nat 0))
      && finite s.premium

  -- The sample replaces the reference.
  abbrev pub improves : Direction → Sample Num → Sample Num → Bool
  improves call_credit s r = lt s.premium r.premium
  improves put_credit s r = lt r.premium s.premium

  abbrev pub choose : Direction → Sample Num → Option (Sample Num) → Option (Sample Num)
  choose d s none = some s
  choose d s (some r) = if improves d s r then some s else some r

  -- The loop over the history.
  unfoldable pub reference_from :
      Direction → Sample Num → Option (Sample Num) → List (Sample Num) → Option (Sample Num)
  unfolding eligible
  reference_from d current r [] = r
  reference_from d current r (s ∷ ss) =
      reference_from d current (if eligible current s then choose d s r else r) ss

  abbrev pub move_of : Sample Num → Sample Num → Num
  move_of current r = mul (sub (div current.premium r.premium) (of_nat 1)) (of_nat 100)

  -- The move is too small.
  abbrev pub too_small : Direction → Num → Bool
  too_small call_credit move = lt (add move nano) minimum_move_pct
  too_small put_credit move = lt (neg minimum_move_pct) (sub move nano)

  abbrev pub signal_of : Direction → Sample Num → Sample Num → Signal Num
  signal_of d current r = record {
    direction = d;
    t = current.t;
    reference = r.premium;
    reference_at = r.t;
    move_pct = move_of current r;
    premium = current.premium;
    vwap = current.vwap;
  }

  unfoldable pub qualify : Sample Num → Sample Num → List (Sample Num) → Option (Signal Num)
  unfolding comparable crossing reference_from
  qualify previous current history =
      if not (comparable previous current) then none else elim (crossing previous current) [
        | none ↦ none
        | some d ↦ elim (reference_from d current none history) [
          | none ↦ none
          | some r ↦ if too_small d (move_of current r) then none else some (signal_of d current r)
        ]
      ]

  -- The Go expression multiplies the quantity by the sum taken from the left.
  unfoldable pub gross_pnl : Trade Num → Num → Num → Num
  gross_pnl trade short_ask hedge_bid =
      mul (of_nat trade.quantity)
        (sub (add (sub trade.short.entry short_ask) hedge_bid) trade.hedge.entry)
