-- ===== src/Spike/Tests.antt =====
-- Concrete runs of the Spike engine, in thousandths.
use cal_spread_backend.Base.{
  ℕ, ◌+◌, ◌-◌, ◌*◌, ◌/◌, ◌≤◌, ◌%◌, ◌≡◌, ◌≢◌, refl, ◌⊎◌, true, false, none, some, Option, List, [],
  ◌∷◌, ◌++◌, arith, All, ◌<◌, ℕ_discrete,
}
use cal_spread_backend.Base.Int.{ℤ, pos, ℤ-discrete}
use cal_spread_backend.Base.Maps.{get}
use cal_spread_backend.Base.Milli.{milli}
use cal_spread_backend.Spike.Types.{
  Symbol-discrete, nifty, Sample, Signal, Trade, Leg, Bar, call_credit, open_trade,
}
use cal_spread_backend.Spike.Window.{references}
use cal_spread_backend.Spike.Window.Survivors.{extremum}
use cal_spread_backend.Spike.Window.Rolling.{
  Use, adds, reads, use_all, new_window, cheaper, dearer, recent_of, references_rolling,
}
use cal_spread_backend.Spike.Rules.{
  Instrument, Pair, Universe, bucket_end, qualify, comparable, crossing, eligible, reference_from,
  signal_of, gross_pnl,
}
use cal_spread_backend.Spike.Rules.Entry.{bucket_end_lem}
use cal_spread_backend.Spike.Rules.Signals.{Warranted, qualify-Warranted}
use cal_spread_backend.Spike.Quote.{Quote, Tick, Broker, Namespace}
use cal_spread_backend.Spike.Engine.{Engine, Env, Candidate, BarKey}
use cal_spread_backend.Spike.Engine.Bars.{complete_bars, form_bar, flush_failed, get_key}
use cal_spread_backend.Spike.Engine.Marks.{on_connection}
use cal_spread_backend.Spike.Engine.Evaluate.{evaluate, on_ticks}
use cal_spread_backend.Spike.Engine.Trades.{
  close_start, closing, closed_now, close_done, may_enter, enter_done,
}
use cal_spread_backend.Spike.Engine.Contracts.{contract, contracts, on_ticks-contracts}
use cal_spread_backend.Spike.Engine.Fills.{Queued, evaluate-Queued}
use cal_spread_backend.Spike.Engine.Ledger.{Closed}
use cal_spread_backend.Spike.Engine.Machine.{
  idle, exiting, Machine, ticks, quiet, receive, enter_begin, enter_end, close_end, here, then_step,
}
use cal_spread_backend.Spike.Engine.Machine.Steps.{Books}
use cal_spread_backend.Spike.Engine.Machine.Safety.{Reaches-Books, Step-keeps, reconnect_lem}
use cal_spread_backend.Spike.Engine.Saved.{
  Kept, or_else, Spans, flush_failed_lem, form_bar-Spans, complete_bars_lem,
}
use cal_spread_backend.Base.Maps.{Map}
use cal_spread_backend.Spike.Quote.{Namespace-discrete}
use cal_spread_backend.Spike.Engine.Reconcile.{
  activated, activate, activate_lem, Covered, max_tokens, add_open, add_chains, add_rows, add_token,
}
use cal_spread_backend.Base.{length, mem}
use cal_spread_backend.Spike.Types.{Symbol}

abbrev Num : Type 0
Num = Option ℤ

abbrev rupees : ℕ → Num
rupees n = some (pos (n * 1000))

-- 10:00 in India on the first day of the epoch.
abbrev ten : ℕ
ten = 270 * 60000

abbrev sample : ℕ → ℕ → ℕ → Sample Num
sample t premium vwap = record {
  t = t;
  premium = rupees premium;
  vwap = rupees vwap;
  strike = rupees 100;
  expiry = "1970-01-01";
  ce_token = pos 1;
  pe_token = pos 11;
}

abbrev uses : List (Use Num)
uses =
    adds (sample 1000 90 80)
    ∷ adds (sample 2000 70 80)
    ∷ reads 3000
    ∷ adds (sample 3000 95 80)
    ∷ adds (sample 1900000 80 80)
    ∷ []

references_rolling_example :
    (references milli 1900001 (use_all milli uses (new_window milli))).1
    ≡ extremum (cheaper milli) (recent_of milli 1900001 uses)
      ++ extremum (dearer milli) (recent_of milli 1900001 uses)
references_rolling_example =
    references_rolling milli uses 1900001
      (omega arith, (omega arith, (omega arith, (omega arith, (omega arith, tt)))))
      (refl, (refl, (refl, (refl, tt)))) (omega arith)

bucket_end_lem_example :
    (ten + 1 ≤ bucket_end (ten + 1) 5)
    × (bucket_end (ten + 1) 5 < ten + 1 + 5 * 60000)
    × ((bucket_end (ten + 1) 5 + 330 * 60000) % (5 * 60000) ≡ 0)
bucket_end_lem_example = bucket_end_lem (ten + 1) 5 (omega arith)

abbrev instrument : ℕ → ℕ → Instrument Num
instrument token strike = record {
  instrument_token = pos token;
  exchange_token = pos token;
  tradingsymbol = "NIFTY";
  name = "NIFTY";
  last_price = rupees 0;
  expiry = "1970-01-01";
  strike = rupees strike;
  tick_size = rupees 0;
  lot_size = rupees 50;
  instrument_type = "CE";
  segment = "NFO-OPT";
  exchange = "NFO";
}

abbrev pair : Pair Num
pair = record { ce = instrument 1 100; pe = instrument 11 100 }

abbrev universe : Universe Num
universe = record {
  symbol = nifty;
  expiry = "1970-01-01";
  pairs = pair ∷ [];
  calls =
      instrument 1 100
      ∷ instrument 2 110
      ∷ instrument 3 120
      ∷ instrument 4 130
      ∷ instrument 5 140
      ∷ [];
  puts = instrument 11 100 ∷ [];
}

abbrev before : Sample Num
before = sample (ten - 1000) 80 90

abbrev after : Sample Num
after = sample ten 120 90

abbrev crossed : Signal Num
crossed = signal_of milli call_credit after before

qualify-Warranted_example :
    Warranted milli before after (before ∷ []) (qualify milli before after (before ∷ []))
qualify-Warranted_example = qualify-Warranted milli before after (before ∷ [])

signals : qualify milli before after (before ∷ []) ≡ some crossed
unfolding qualify comparable crossing reference_from eligible
signals = refl

abbrev dhan_one : Namespace
dhan_one = record { broker = Broker.dhan; generation = 1 }

abbrev env : Env
env = record {
  now = ten;
  namespace_now = dhan_one;
  ready = true;
  db_enabled = true;
  day_key = λ _. "1970-01-01";
  new_id = λ _. "spike-1";
}

abbrev quoted : ℕ → ℕ → Quote Num
quoted bid vwap = record {
  ltp = rupees bid;
  vwap = rupees vwap;
  bid = rupees bid;
  ask = rupees (bid + 1);
  bid_qty = rupees 100;
  ask_qty = rupees 100;
  price_at = ten;
  book_at = ten;
}

abbrev engine : Engine Num
engine = record {
  started = true;
  stopped = false;
  loaded = true;
  active = true;
  connected = true;
  paper = true;
  day = "1970-01-01";
  last_error = "";
  namespace = dhan_one;
  universes = (nifty, universe) ∷ [];
  wanted = pos 1 ∷ pos 5 ∷ pos 11 ∷ [];
  quotes = (pos 1, quoted 60 50) ∷ (pos 5, quoted 10 12) ∷ (pos 11, quoted 60 40) ∷ [];
  views = [];
  previous = (nifty, before) ∷ [];
  windows = (nifty, record { low = before ∷ []; high = before ∷ [] }) ∷ [];
  forming = [];
  bars = [];
  pending_bars = [];
  open_trades = [];
  closed = [];
  pending = [];
  refresh = false;
  candidates = [];
}

abbrev leg : ℕ → ℕ → Leg Num
leg token price = record {
  token = pos token;
  symbol = "NIFTY";
  strike = rupees 100;
  entry = rupees price;
  exit = none;
}

-- One lot of 50 at a credit of 49.
abbrev spread : Trade Num
spread = record {
  id = "spike-1";
  symbol = nifty;
  status = open_trade;
  direction = call_credit;
  expiry = "1970-01-01";
  lot_size = 50;
  quantity = 50;
  opened_at = ten;
  closed_at = none;
  short = leg 1 60;
  hedge = leg 5 11;
  signal = crossed;
  entry_credit = rupees 2450;
  mark_short = none;
  mark_hedge = none;
  mark_at = none;
  pnl = none;
  mark_stale = true;
}

whole : Num → ℕ
whole none = 0
whole (some (pos n)) = n / 1000
whole (some _) = 0

evaluate-Queued_example : Queued milli env nifty engine (evaluate milli whole env nifty engine)
evaluate-Queued_example = evaluate-Queued milli whole env nifty engine

-- The engine with the spread open.
abbrev holding_spread : Engine Num
holding_spread = record engine { open_trades = (nifty, spread) ∷ [] }

abbrev tick : Tick Num
tick = record {
  token = pos 1;
  last_price = rupees 61;
  close_price = rupees 0;
  oi = rupees 0;
  bid = rupees 61;
  ask = rupees 62;
  bids = none;
  asks = none;
  depth_updated = some true;
  exchange_ts = none;
  average_price = none;
  price_updated = some true;
  average_updated = none;
  namespace = some dhan_one;
}

on_ticks-contracts_example :
    (contracts milli (on_ticks milli whole env (tick ∷ []) holding_spread).open_trades
      ≡ contracts milli holding_spread.open_trades)
    × ((on_ticks milli whole env (tick ∷ []) holding_spread).closed ≡ [])
on_ticks-contracts_example = on_ticks-contracts milli whole env (tick ∷ []) holding_spread

reconnect_lem_example :
    All (λ x. x.1.mark_stale ≡ true) (on_connection milli env false holding_spread).open_trades
    × (close_start milli env "spike-1" (on_connection milli env false holding_spread)
        ≢ closing (closed_now milli env holding_spread spread))
    × (close_start milli env "spike-1"
          (on_connection milli env true (on_connection milli env false holding_spread))
        ≢ closing (closed_now milli env holding_spread spread))
reconnect_lem_example =
    reconnect_lem milli env env env "spike-1" holding_spread
      (closed_now milli env holding_spread spread)

abbrev candidate : Candidate Num
candidate = record { trade = spread; namespace = dhan_one }

-- The candidate has been entered and a tick has come.
abbrev later : Machine Num
later = record {
  engine =
      on_ticks milli whole env (tick ∷ [])
        (enter_done milli env candidate (may_enter milli env candidate engine) none engine);
  received = none;
  flight = idle;
}

Reaches-Books_example : Books milli later
Reaches-Books_example =
    Reaches-Books milli
      (then_step
        (then_step
          (then_step (then_step here (receive {f = idle} candidate [] refl))
            (enter_begin env candidate))
          (enter_end env candidate none))
        (quiet {f = idle} (ticks whole env (tick ∷ []))))
      ((tt, tt), tt, (omega arith, ((omega arith, refl, refl), tt)), tt, tt {0})

abbrev exit_trade : Trade Num
exit_trade = closed_now milli env holding_spread spread

abbrev leaving : Machine Num
leaving = record { engine = holding_spread; received = none; flight = exiting exit_trade }

Step-keeps_example :
    (get Symbol-discrete nifty
        (contracts milli (close_done milli exit_trade holding_spread).open_trades)
      ≡ some (contract milli spread))
    ⊎ ((t : Trade Num) × (((close_done milli exit_trade holding_spread).closed ≡ t ∷ [])
          × (t.id ≡ "spike-1")
          × Closed milli t))
unfolding get Symbol-discrete gross_pnl
Step-keeps_example =
    Step-keeps milli {m = leaving} nifty (contract milli spread) close_end
      (
        ((refl, tt), ((refl, (omega arith, refl, refl)), tt)),
        tt,
        (omega arith, tt),
        tt,
        (
          ((omega arith, refl, refl), refl, (_, _, (refl, refl, refl))),
          (contract milli spread, (refl, refl)),
        ),
      )
      refl

abbrev bar : Bar Num
bar = record {
  sample = after;
  symbol = nifty;
  day = "1970-01-01";
  low = rupees 100;
  low_at = ten - 10;
  high = rupees 125;
  high_at = ten - 5;
}

abbrev forming_one : Engine Num
forming_one = record engine { forming = (nifty, bar) ∷ [] }

form_bar-Spans_example :
    All (λ x. Spans milli x.1) (form_bar milli nifty (sample ten 130 90) ten forming_one).forming
form_bar-Spans_example =
    form_bar-Spans milli nifty (sample ten 130 90) ten forming_one refl
      ((refl, refl, refl, refl, refl), tt)

complete_bars_lem_example :
    Kept milli ten false nifty bar (complete_bars milli ten false forming_one)
unfolding get Symbol-discrete
complete_bars_lem_example = complete_bars_lem milli ten false nifty bar forming_one (refl, tt) refl

abbrev bar_key : BarKey
bar_key = (nifty, "1970-01-01", ten)

flush_failed_lem_example :
    (get_key bar_key (flush_failed milli ((bar_key, bar) ∷ []) "down" engine).pending_bars
      ≡ or_else (get_key bar_key []) (get_key bar_key ((bar_key, bar) ∷ [])))
    × ((flush_failed milli ((bar_key, bar) ∷ []) "down" engine).last_error ≡ "down")
flush_failed_lem_example = flush_failed_lem milli bar_key ((bar_key, bar) ∷ []) "down" engine

abbrev chains : Map Symbol (Universe Num)
chains = (nifty, universe) ∷ []

abbrev activated_engine : Engine Num
activated_engine = elim (activate whole env dhan_one chains holding_spread) [
  | activated e ↦ e
  | _ ↦ holding_spread
]

activate_lem_example :
    (length (activated_engine.wanted) ≤ max_tokens)
    × All (Covered activated_engine.wanted) holding_spread.open_trades
    × (activated_engine.open_trades ≡ holding_spread.open_trades)
    × (activated_engine.closed ≡ holding_spread.closed)
    × (activated_engine.active ≡ true)
unfolding activate Namespace-discrete add_open add_chains add_rows add_token mem ℤ-discrete
    ℕ_discrete mathlib.Core.Bool.decide
activate_lem_example = activate_lem whole env dhan_one chains holding_spread activated_engine refl
