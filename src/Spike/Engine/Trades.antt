-- ===== src/Spike/Engine/Trades.antt =====
-- internal/spike/engine.go and actions.go: entering and closing a paper spread, pausing, and the
-- charts. `opMu` keeps these methods apart from one another.
use text.Mathlib.Text.{◌==◌ as str_eq}
use cal_spread_backend.Base.{
  ◌-◌, Bool, false, ◌&&◌, not, Option, none, some, String, List, [], ◌∷◌, leb, if◌then◌else◌,
  is_some,
}
use cal_spread_backend.Base.Maps.{Map, get, put, delete}
use cal_spread_backend.Base.Float.{Float64}
use cal_spread_backend.Spike.Types.{Symbol, Symbol-discrete, Trade, Leg, closed_trade}
use cal_spread_backend.Spike.Rules.{gross_pnl}
use cal_spread_backend.Spike.Quote.{same_namespace}
use cal_spread_backend.Spike.Engine.{Engine, Env, Candidate, data_ready, quote_for}
use cal_spread_backend.Spike.Engine.Marks.{closable, update_marks}
use cal_spread_backend.Spike.Engine.Evaluate.{view_of, pending_of}

-- What `Close` returns when it does not ask the database.
pub data Refusal : Type 0 where
  stopping not_open no_depth : Refusal

pub data Closing (Num : Type 0) : Type 0 where
  refused : Refusal → Closing Num
  already_closed : Trade Num → Closing Num
  closing : Trade Num → Closing Num

module _ (fl : Float64) where
  open fl use {Num}

  -- The first locked stretch of `enter`: whether the trade is to be inserted.
  unfoldable pub may_enter : Env → Candidate Num → Engine Num → Bool
  may_enter env cand e =
      not e.stopped
      && e.paper
      && e.active
      && e.connected
      && data_ready env
      && same_namespace e.namespace cand.namespace
      && same_namespace env.namespace_now cand.namespace
      && leb (env.now - cand.trade.opened_at) 5000
      && not (is_some (get Symbol-discrete cand.trade.symbol e.open_trades))

  abbrev pub unpend : Trade Num → Engine Num → Engine Num
  unpend trade e =
      if str_eq (pending_of fl trade.symbol e) trade.id
      then record e { pending = delete Symbol-discrete trade.symbol e.pending }
      else e

  -- The second one, with what the first found and the error of the insertion, if any.
  unfoldable pub enter_done : Env → Candidate Num → Bool → Option String → Engine Num → Engine Num
  enter_done env cand inserted error e =
      let trade = cand.trade in
      let e₁ = unpend trade e in
      let opened = record e₁ {
        open_trades = put Symbol-discrete trade.symbol trade e₁.open_trades;
        views =
            put Symbol-discrete trade.symbol
              (record (view_of fl trade.symbol e₁) { note = "Primary one-lot paper spread open" })
              e₁.views;
      } in
      elim error [
        | none ↦ if inserted then update_marks fl env opened else e₁
        | some message ↦ record e₁ { last_error = message }
      ]

  unfoldable pub find_open : String → Map Symbol (Trade Num) → Option (Trade Num)
  find_open id [] = none
  find_open id ((s, trade) ∷ m) = if str_eq trade.id id then some trade else find_open id m

  unfoldable pub find_closed : String → List (Trade Num) → Option (Trade Num)
  find_closed id [] = none
  find_closed id (trade ∷ ts) = if str_eq trade.id id then some trade else find_closed id ts

  abbrev closed_leg : Leg Num → Num → Leg Num
  closed_leg l price = record l { exit = some price }

  abbrev pub closed_now : Env → Engine Num → Trade Num → Trade Num
  closed_now env e trade =
      let a = quote_for fl trade.short.token e in
      let b = quote_for fl trade.hedge.token e in
      record trade {
        status = closed_trade;
        closed_at = some env.now;
        short = closed_leg trade.short a.ask;
        hedge = closed_leg trade.hedge b.bid;
        mark_short = some a.ask;
        mark_hedge = some b.bid;
        mark_at = some env.now;
        pnl = some (gross_pnl fl trade a.ask b.bid);
        mark_stale = false;
      }

  -- The first locked stretch of `Close`.
  unfoldable pub close_start : Env → String → Engine Num → Closing Num
  close_start env id e =
      if e.stopped
      then refused stopping
      else elim (if str_eq id "" then none else find_open id e.open_trades) [
        | none ↦ elim (find_closed id e.closed) [
          | none ↦ refused not_open
          | some trade ↦ already_closed trade
        ]
        | some trade ↦
            if closable fl env e trade then closing (closed_now env e trade) else refused no_depth
      ]

  -- The second one, after the database has closed the trade.
  unfoldable pub close_done : Trade Num → Engine Num → Engine Num
  close_done trade e = record e {
    open_trades = delete Symbol-discrete trade.symbol e.open_trades;
    closed = trade ∷ e.closed;
  }

  -- The last stretch of `SetPaper`, after the database has stored the switch.
  unfoldable pub set_paper_done : Bool → Engine Num → Engine Num
  set_paper_done enabled e = record e { paper = enabled }
