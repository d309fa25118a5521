-- ===== src/Spike/Quote.antt =====
-- internal/spike/engine.go, internal/market/market.go and internal/brokers/namespace.go: the ticks
-- of the feed and the quote that the engine keeps for a token.
use mathlib.Core.Bool.{decide}
use cal_spread_backend.Base.{
  ℕ, ◌-◌, Bool, true, false, ◌&&◌, Option, none, some, List, [], ◌∷◌, ltb, leb, if◌then◌else◌,
  ℕ_discrete,
}
use cal_spread_backend.Base.Int.{ℤ}
use cal_spread_backend.Base.Float.{Float64}
use cal_spread_backend.Spike.Types.{book_age_ms}
use cal_spread_backend.Spike.Rules.{positive}

pub data Broker : Type 0 where
  zerodha dhan : Broker

pub record Namespace : Type 0 where
  pub broker : Broker
  pub generation : ℕ

unfoldable pub Namespace-discrete : Discrete Namespace
Namespace-discrete = hlevel ℕ_discrete

abbrev pub same_namespace : Namespace → Namespace → Bool
same_namespace a b = decide (Namespace-discrete a b)

abbrev pub is_dhan : Broker → Bool
is_dhan Broker.dhan = true
is_dhan Broker.zerodha = false

pub record DepthLevel (Num : Type 0) : Type 0 where
  pub price : Num
  pub qty : Num
  pub orders : Num

-- A pointer is an option, and so is a slice that may be nil.
pub record Tick (Num : Type 0) : Type 0 where
  pub token : ℤ
  pub last_price : Num
  pub close_price : Num
  pub oi : Num
  pub bid : Num
  pub ask : Num
  pub bids : Option (List (DepthLevel Num))
  pub asks : Option (List (DepthLevel Num))
  pub depth_updated : Option Bool
  pub exchange_ts : Option ℕ
  pub average_price : Option Num
  pub price_updated : Option Bool
  pub average_updated : Option Bool
  pub namespace : Option Namespace

pub record Quote (Num : Type 0) : Type 0 where
  pub ltp : Num
  pub vwap : Num
  pub bid : Num
  pub ask : Num
  pub bid_qty : Num
  pub ask_qty : Num
  pub price_at : ℕ
  pub book_at : ℕ

-- `p == nil || *p`, and `p != nil && *p`.
abbrev pub unset_or_true : Option Bool → Bool
unset_or_true none = true
unset_or_true (some b) = b

abbrev pub set_and_true : Option Bool → Bool
set_and_true none = false
set_and_true (some b) = b

module _ (fl : Float64) where
  open fl use {Num, le, finite, of_nat}

  -- What a map lookup gives for a token without a quote.
  abbrev pub no_quote : Quote Num
  no_quote = record {
    ltp = of_nat 0;
    vwap = of_nat 0;
    bid = of_nat 0;
    ask = of_nat 0;
    bid_qty = of_nat 0;
    ask_qty = of_nat 0;
    price_at = 0;
    book_at = 0;
  }

  unfoldable pub fresh_book : ℕ → Quote Num → Bool
  fresh_book now q =
      ltb 0 q.book_at
      && leb q.book_at now
      && leb (now - q.book_at) book_age_ms
      && finite q.bid
      && finite q.ask
      && positive fl q.bid
      && le q.bid q.ask
      && finite q.bid_qty
      && finite q.ask_qty
      && le (of_nat 0) q.bid_qty
      && le (of_nat 0) q.ask_qty

  abbrev pub first_qty : Option (List (DepthLevel Num)) → Num
  first_qty none = of_nat 0
  first_qty (some []) = of_nat 0
  first_qty (some (l ∷ ls)) = l.qty

  -- The three blocks of the loop of `OnTicks`.
  unfoldable pub with_price : ℕ → Tick Num → Quote Num → Quote Num
  with_price now tick q =
      if unset_or_true tick.price_updated && positive fl tick.last_price && finite tick.last_price
      then record q { ltp = tick.last_price; price_at = now }
      else if set_and_true tick.price_updated
      then record q { ltp = of_nat 0; price_at = 0 }
      else q

  abbrev pub valid_average : Num → Num
  valid_average a = if positive fl a && finite a then a else of_nat 0

  unfoldable pub with_average : Tick Num → Quote Num → Quote Num
  with_average tick q = elim tick.average_price [
    | none ↦ q
    | some a ↦ if unset_or_true tick.average_updated then record q { vwap = valid_average a } else q
  ]

  unfoldable pub with_depth : ℕ → Tick Num → Quote Num → Quote Num
  with_depth now tick q =
      if set_and_true tick.depth_updated
      then record q {
        bid = tick.bid;
        ask = tick.ask;
        bid_qty = first_qty tick.bids;
        ask_qty = first_qty tick.asks;
        book_at = now;
      }
      else q

  unfoldable pub updated_quote : ℕ → Tick Num → Quote Num → Quote Num
  unfolding with_price with_average with_depth
  updated_quote now tick q = with_depth now tick (with_average tick (with_price now tick q))
