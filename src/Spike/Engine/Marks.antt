-- ===== src/Spike/Engine/Marks.antt =====
-- internal/spike/engine.go: the marks of the open spreads, what a lost connection does, and what the
-- clock and the stop do.
use cal_spread_backend.Base.{Bool, true, false, ◌&&◌, not, some, [], ◌∷◌, if◌then◌else◌}
use cal_spread_backend.Base.Maps.{Map}
use cal_spread_backend.Base.Float.{Float64}
use cal_spread_backend.Spike.Types.{Symbol, Trade}
use cal_spread_backend.Spike.Rules.{gross_pnl}
use cal_spread_backend.Spike.Quote.{fresh_book, same_namespace}
use cal_spread_backend.Spike.Engine.{Engine, Env, data_ready, quote_for}
use cal_spread_backend.Spike.Engine.Bars.{complete_bars}

module _ (fl : Float64) where
  open fl use {Num, lt, of_nat}

  -- The books of both legs are fresh and deep enough to close the spread.
  unfoldable pub closable : Env → Engine Num → Trade Num → Bool
  closable env e trade =
      let a = quote_for fl trade.short.token e in
      let b = quote_for fl trade.hedge.token e in
      e.active
      && e.connected
      && data_ready env
      && same_namespace e.namespace env.namespace_now
      && fresh_book fl env.now a
      && fresh_book fl env.now b
      && not (lt a.ask_qty (of_nat trade.quantity))
      && not (lt b.bid_qty (of_nat trade.quantity))

  unfoldable pub marked : Env → Engine Num → Trade Num → Trade Num
  marked env e trade =
      let a = quote_for fl trade.short.token e in
      let b = quote_for fl trade.hedge.token e in
      if closable env e trade
      then record trade {
        mark_short = some a.ask;
        mark_hedge = some b.bid;
        pnl = some (gross_pnl fl trade a.ask b.bid);
        mark_at = some env.now;
        mark_stale = false;
      }
      else record trade { mark_stale = true }

  unfoldable pub mark_all : Env → Engine Num → Map Symbol (Trade Num) → Map Symbol (Trade Num)
  mark_all env e [] = []
  mark_all env e ((s, trade) ∷ m) = (s, marked env e trade) ∷ mark_all env e m

  unfoldable pub update_marks : Env → Engine Num → Engine Num
  update_marks env e = record e { open_trades = mark_all env e e.open_trades }

  unfoldable pub on_connection : Env → Bool → Engine Num → Engine Num
  on_connection env true e = record e { connected = true }
  on_connection env false e =
      update_marks env (record e { connected = false; quotes = []; previous = [] })

  -- The buffered signal to the reconciler is set, or was already.
  unfoldable pub on_runtime_ready : Env → Engine Num → Engine Num
  on_runtime_ready env e = record (update_marks env (record e { quotes = []; previous = [] })) {
    refresh = true;
  }

  -- The locked stretch of `Invalidate`, without the watchers; then it calls `OnRuntimeReady`.
  unfoldable pub invalidate : Engine Num → Engine Num
  invalidate e = record e {
    active = false;
    connected = false;
    quotes = [];
    previous = [];
    pending = [];
  }

  -- The locked part of a tick of the clock, without the snapshot.
  unfoldable pub on_second : Env → Engine Num → Engine Num
  on_second env e = update_marks env (complete_bars fl env.now false e)

  -- The first locked stretch of `Stop`, without the watchers.
  unfoldable pub stop_start : Env → Engine Num → Engine Num
  stop_start env e =
      if e.stopped then e else complete_bars fl env.now true (record e { stopped = true })
