-- ===== src/Spike/Engine/Evaluate.antt =====
-- internal/spike/engine.go: a batch of ticks, and the entry signal of one symbol.
use mathlib.Core.Option
use text.Mathlib.Text.{◌==◌ as str_eq}
use cal_spread_backend.Base.{
  ℕ, ◌-◌, Bool, true, false, ◌&&◌, ◌||◌, not, Option, none, some, String, List, [], ◌∷◌, ◌++◌, ltb,
  leb, ◌==◌, if◌then◌else◌, is_some, mem, length,
}
use cal_spread_backend.Base.Int.{pos, ℤ-discrete}
use cal_spread_backend.Base.Maps.{get, put}
use cal_spread_backend.Base.Float.{Float64}
use cal_spread_backend.Spike.Types.{
  Symbol, Symbol-discrete, nifty, sensex, Sample, Signal, Trade, Leg, IndexView, quote_age_ms,
  open_trade,
}
use cal_spread_backend.Spike.Window.{PriceWindow, references, add_sample}
use cal_spread_backend.Spike.Rules.{Instrument, Pair, Universe, qualify, hedge_for, positive}
use cal_spread_backend.Spike.Quote.{
  Quote, Tick, Namespace, fresh_book, updated_quote, same_namespace, is_dhan,
}
use cal_spread_backend.Spike.Engine.{Engine, Env, quote_for, market_open}
use cal_spread_backend.Spike.Engine.Bars.{complete_bars, form_bar}
use cal_spread_backend.Spike.Engine.Marks.{update_marks}

-- The result of `tradeAtCrossLocked`: a trade, or the message of its error.
pub data Entry (Num : Type 0) : Type 0 where
  entered : Trade Num → Entry Num
  skipped : String → Entry Num

module _ (fl : Float64) where
  open fl use {Num, le, lt, finite, add, sub, mul, of_nat}

  -- `int(x)` of a lot size: the conversion to an integer, towards zero, is not Go code of the
  -- repository, so the whole number comes from outside with the test that it is the lot size.
  abbrev pub Whole : Type 0
  Whole = Num → ℕ

  abbrev pub same : Num → Num → Bool
  same a b = le a b && le b a

  abbrev leg_of : Instrument Num → Num → Leg Num
  leg_of i price = record {
    token = i.instrument_token;
    symbol = i.tradingsymbol;
    strike = i.strike;
    entry = price;
    exit = none;
  }

  abbrev new_trade :
      Whole
      → Env
      → Symbol
      → Instrument Num
      → Instrument Num
      → Signal Num
      → Quote Num
      → Quote Num
      → Trade Num
  new_trade whole env symbol short hedge signal a b = record {
    id = env.new_id env.now;
    symbol = symbol;
    status = open_trade;
    direction = signal.direction;
    expiry = short.expiry;
    lot_size = whole short.lot_size;
    quantity = whole short.lot_size;
    opened_at = env.now;
    closed_at = none;
    short = leg_of short a.bid;
    hedge = leg_of hedge b.ask;
    signal = signal;
    entry_credit = mul (of_nat (whole short.lot_size)) (sub a.bid b.ask);
    mark_short = none;
    mark_hedge = none;
    mark_at = none;
    pnl = none;
    mark_stale = true;
  }

  unfoldable pub trade_at_cross :
      Whole → Env → Symbol → Instrument Num → Instrument Num → Signal Num → Engine Num → Entry Num
  trade_at_cross whole env symbol short hedge signal e =
      let lot = whole short.lot_size in
      let a = quote_for fl short.instrument_token e in
      let b = quote_for fl hedge.instrument_token e in
      if leb lot 0
        || not (same (of_nat lot) short.lot_size)
        || not (same hedge.lot_size short.lot_size)
      then skipped "Contract lot sizes are unavailable or differ"
      else if not (fresh_book fl env.now a)
          || not (fresh_book fl env.now b)
          || lt a.bid_qty (of_nat lot)
          || lt b.ask_qty (of_nat lot)
      then skipped "Signal skipped: fresh one-lot executable depth is unavailable"
      else if lt a.bid b.ask
      then skipped "Signal skipped: hedge is not a credit spread at the observed touch"
      else entered (new_trade whole env symbol short hedge signal a b)

  -- The sample of a pair, if both legs have a recent price and their sum is a positive number.
  unfoldable pub sample_of : ℕ → String → Pair Num → Engine Num → Option (Sample Num)
  sample_of now expiry p e =
      let ce = quote_for fl p.ce.instrument_token e in
      let pe = quote_for fl p.pe.instrument_token e in
      let premium = add ce.ltp pe.ltp in
      if ce.price_at == 0
        || pe.price_at == 0
        || ltb quote_age_ms (now - ce.price_at)
        || ltb quote_age_ms (now - pe.price_at)
      then none
      else if not (finite premium) || le premium (of_nat 0)
      then none
      else some (record {
        t = now;
        premium = premium;
        vwap = if positive fl ce.vwap && positive fl pe.vwap then add ce.vwap pe.vwap else of_nat 0;
        strike = p.ce.strike;
        expiry = expiry;
        ce_token = p.ce.instrument_token;
        pe_token = p.pe.instrument_token;
      })

  abbrev pub cheaper_pair :
      Option (Pair Num × Sample Num) → Pair Num → Sample Num → Option (Pair Num × Sample Num)
  cheaper_pair none p s = some (p, s)
  cheaper_pair (some (q, r)) p s = if lt s.premium r.premium then some (p, s) else some (q, r)

  -- The loop over the pairs.
  unfoldable pub minimum_from :
      ℕ
      → String
      → Option (Pair Num × Sample Num)
      → List (Pair Num)
      → Engine Num
      → Option (Pair Num × Sample Num)
  minimum_from now expiry best [] e = best
  minimum_from now expiry best (p ∷ ps) e =
      minimum_from now expiry
        (elim (sample_of now expiry p e) [ none ↦ best | some s ↦ cheaper_pair best p s ]) ps e

  abbrev no_sample : Sample Num
  no_sample = record {
    t = 0;
    premium = of_nat 0;
    vwap = of_nat 0;
    strike = of_nat 0;
    expiry = "";
    ce_token = pos 0;
    pe_token = pos 0;
  }

  abbrev pub no_window : PriceWindow Num
  no_window = record { low = []; high = [] }

  abbrev no_view : Symbol → IndexView Num
  no_view s = record {
    symbol = s;
    expiry = "";
    pairs = 0;
    lot_size = 0;
    current = none;
    signal = none;
    note = "";
    recording_since = none;
  }

  abbrev pub view_of : Symbol → Engine Num → IndexView Num
  view_of s e = Option.get_or (get Symbol-discrete s e.views) (no_view s)

  abbrev pub previous_of : Symbol → Engine Num → Sample Num
  previous_of s e = Option.get_or (get Symbol-discrete s e.previous) no_sample

  abbrev pub pending_of : Symbol → Engine Num → String
  pending_of s e = Option.get_or (get Symbol-discrete s e.pending) ""

  abbrev pub is_open : Symbol → Engine Num → Bool
  is_open s e = is_some (get Symbol-discrete s e.open_trades)

  -- The non-blocking send: the channel holds two candidates.
  unfoldable pub offer : Symbol → Trade Num → Engine Num → Engine Num × String
  offer s trade e =
      if ltb (length e.candidates) 2
      then (
        record e {
          candidates = e.candidates ++ record { trade = trade; namespace = e.namespace } ∷ [];
          pending = put Symbol-discrete s trade.id e.pending;
        },
        "Saving one-lot paper spread",
      )
      else (e, "Paper entry queue is busy")

  unfoldable pub try_entry :
      Whole → Env → Symbol → Universe Num → Pair Num → Signal Num → Engine Num → Engine Num × String
  try_entry whole env s u minimum signal e = elim (hedge_for u minimum signal.direction) [
    | none ↦ (e, "Qualified signal has no fourth-OTM hedge")
    | some (short, hedge) ↦ elim (trade_at_cross whole env s short hedge signal e) [
      | skipped message ↦ (e, message)
      | entered trade ↦ offer s trade e
    ]
  ]

  -- What `evaluateLocked` does with a qualified signal, and the note for it.
  unfoldable pub on_signal :
      Whole → Env → Symbol → Universe Num → Pair Num → Signal Num → Engine Num → Engine Num × String
  on_signal whole env s u minimum signal e =
      if not e.paper
      then (e, "Signal observed; paper entries paused")
      else if not env.db_enabled
      then (e, "Paper entry needs PostgreSQL")
      else if is_open s e
      then (e, "Signal observed; primary paper spread already open")
      else if str_eq (pending_of s e) ""
      then try_entry whole env s u minimum signal e
      else (e, "5% move and VWAP crossover qualified")

  -- The view before the signal is looked at.
  unfoldable pub sampled_view : Whole → Env → Pair Num → Sample Num → IndexView Num → IndexView Num
  sampled_view whole env minimum sample view = record view {
    current = some sample;
    lot_size = whole minimum.ce.lot_size;
    recording_since = some (Option.get_or view.recording_since env.now);
    note =
        if le sample.vwap (of_nat 0)
        then "Waiting for both leg volume-weighted average prices"
        else "Monitoring exact crossovers";
  }

  abbrev set_view : Symbol → IndexView Num → Engine Num → Engine Num
  set_view s view e = record e { views = put Symbol-discrete s view e.views }

  unfoldable pub signalled :
      Whole
      → Env
      → Symbol
      → Universe Num
      → Pair Num
      → IndexView Num
      → Option (Signal Num)
      → Engine Num
      → Engine Num × IndexView Num
  signalled whole env s u minimum view none e = (e, view)
  signalled whole env s u minimum view (some signal) e =
      let (e', note) = on_signal whole env s u minimum signal e in
      (e', record view { signal = some signal; note = note })

  -- `evaluateLocked` for a symbol whose cheapest pair is known.
  unfoldable pub evaluate_pair :
      Whole → Env → Symbol → Universe Num → Pair Num → Sample Num → Engine Num → Engine Num
  evaluate_pair whole env s u minimum sample e =
      let view = sampled_view whole env minimum sample (view_of s e) in
      let (window, refs) =
        references fl env.now (Option.get_or (get Symbol-discrete s e.windows) no_window) in
      let (e₁, view₁) =
        signalled whole env s u minimum view (qualify fl (previous_of s e) sample refs) e in
      form_bar fl s sample env.now (record (set_view s view₁ e₁) {
        windows = put Symbol-discrete s (add_sample fl sample window) e₁.windows;
        previous = put Symbol-discrete s sample e₁.previous;
      })

  unfoldable pub evaluate : Whole → Env → Symbol → Engine Num → Engine Num
  evaluate whole env s e = elim (get Symbol-discrete s e.universes) [
    | none ↦ set_view s (record (view_of s e) { note = "Waiting for fresh paired option prices" }) e
    | some u ↦ elim (minimum_from env.now u.expiry none u.pairs e) [
      | none ↦
          set_view s (record (view_of s e) { note = "Waiting for fresh paired option prices" }) e
      | some (p, sample) ↦ evaluate_pair whole env s u p sample e
    ]
  ]

  abbrev foreign : Namespace → Tick Num → Bool
  foreign n tick = elim tick.namespace [ none ↦ false | some m ↦ not (same_namespace m n) ]

  unfoldable pub apply_tick : Env → Tick Num → Engine Num → Engine Num
  apply_tick env tick e =
      if not (mem ℤ-discrete tick.token e.wanted) || foreign env.namespace_now tick
      then e
      else record e {
        quotes =
            put ℤ-discrete tick.token (updated_quote fl env.now tick (quote_for fl tick.token e))
              e.quotes;
      }

  unfoldable pub apply_ticks : Env → List (Tick Num) → Engine Num → Engine Num
  apply_ticks env [] e = e
  apply_ticks env (t ∷ ts) e = apply_ticks env ts (apply_tick env t e)

  unfoldable pub listening : Env → Engine Num → Bool
  listening env e =
      not e.stopped
      && e.active
      && e.connected
      && same_namespace e.namespace env.namespace_now
      && is_dhan env.namespace_now.broker
      && str_eq e.day (env.day_key env.now)

  unfoldable pub on_ticks : Whole → Env → List (Tick Num) → Engine Num → Engine Num
  on_ticks whole env ticks e =
      let e₁ = update_marks fl env (complete_bars fl env.now false (apply_ticks env ticks e)) in
      if not (listening env e)
      then e
      else if not (market_open env.now)
      then e₁
      else evaluate whole env sensex (evaluate whole env nifty e₁)
