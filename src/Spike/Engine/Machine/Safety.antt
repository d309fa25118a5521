-- ===== src/Spike/Engine/Machine/Safety.antt =====
-- What no run of the engine of internal/spike does: lose an open spread, or close one on old quotes.
use cal_spread_backend.Base.{
  ◌≡◌, ◌≢◌, refl, ap, ◌∙◌, ◌⊎◌, inl, inr, Bool, true, false, some, String, [], ◌∷◌, arith, All,
}
use cal_spread_backend.Base.Maps.{Map, get, put, get-put, get-delete}
use cal_spread_backend.Base.Float.{Float64}
use cal_spread_backend.Spike.Types.{Symbol, Symbol-discrete, Trade}
use cal_spread_backend.Spike.Quote.{fresh_book}
use cal_spread_backend.Spike.Engine.{Engine, Env, Candidate, quote_for}
use cal_spread_backend.Spike.Engine.Marks.{closable, update_marks, mark_all, marked, on_connection}
use cal_spread_backend.Spike.Engine.Trades.{
  enter_done, close_start, close_done, closing, set_paper_done,
}
use cal_spread_backend.Spike.Engine.Contracts.{contract, contracts}
use cal_spread_backend.Spike.Engine.Ledger.{Closed}
use cal_spread_backend.Spike.Engine.Machine.{
  entering, Machine, Step, quiet, receive, enter_begin, enter_end, close_begin, close_failed,
  close_end, switched, Reaches, here, then_step,
}
use cal_spread_backend.Spike.Engine.Machine.Steps.{
  Books, Pending, Step-Books, contracts-delete, enter_done_lem, Quiet-Calm, close_start_lem,
}

module _ (fl : Float64) where
  open fl use {Num}

  -- If the books are in order, then they are in order after any sequence of steps: at most one
  -- spread is open for each symbol, it stands under its symbol and was entered for a credit that is
  -- not negative, every closed spread has its exit prices and their profit, at most two candidates
  -- wait, an entry that passed its tests finds no open spread, and a trade that is being closed is
  -- still open.
  pub Reaches-Books : {m m' : Machine Num} → Reaches fl m m' → Books fl m → Books fl m'
  Reaches-Books here b = b
  Reaches-Books (then_step r s) b = Step-Books fl s (Reaches-Books r b)

  entered_keeps :
      (c : Candidate Num) (b : Bool) (s : Symbol) (u : Trade Num) (m m' : Map Symbol (Trade Num))
      → Pending fl (entering c b) m
      → (m' ≡ m) ⊎ ((b ≡ true) × (m' ≡ put Symbol-discrete c.trade.symbol (contract fl c.trade) m))
      → get Symbol-discrete s m ≡ some u
      → get Symbol-discrete s m' ≡ some u
  entered_keeps c b s u m m' p (inl same) h = ap (get Symbol-discrete s) same ∙ h
  entered_keeps c b s u m m' p (inr (passed, more)) h =
      ap (get Symbol-discrete s) more
      ∙ ground
          (arith, p.1 passed, h, get-put Symbol-discrete c.trade.symbol s (contract fl c.trade) m)

  -- From books in order, a step keeps the contract of every open spread, or it is the end of
  -- closing that spread, which then heads the closed ones with its exit prices and its profit.
  pub Step-keeps :
      {m m' : Machine Num} (s : Symbol) (u : Trade Num)
      → Step fl m m'
      → Books fl m
      → get Symbol-discrete s (contracts fl m.engine.open_trades) ≡ some u
      → (get Symbol-discrete s (contracts fl m'.engine.open_trades) ≡ some u)
        ⊎ ((t : Trade Num) × ((m'.engine.closed ≡ t ∷ m.engine.closed)
              × (t.id ≡ u.id)
              × Closed fl t))
  unfolding close_done set_paper_done
  Step-keeps s u (quiet q) b h = inl (ap (get Symbol-discrete s) (Quiet-Calm fl q).0 ∙ h)
  Step-keeps s u (receive x xs more) b h = inl h
  Step-keeps s u (enter_begin env x) b h = inl h
  Step-keeps s u (enter_end {e = e} {b = tested} env x error) b h = inl (
      entered_keeps x tested s u (contracts fl e.open_trades)
        (contracts fl (enter_done fl env x tested error e).open_trades) b.4
        (enter_done_lem fl env x tested error e).0 h)
  Step-keeps s u (close_begin env id t e) b h = inl h
  Step-keeps s u (close_failed) b h = inl h
  Step-keeps s u (close_end {e = e} {t = t}) b h =
      let (closed, (v, (there, named))) = b.4 in
      elim (Symbol-discrete t.symbol s) [
        | yes same ↦ inr (t, (refl, named ∙ ground (arith, there, h, same), closed))
        | no other ↦ inl (
            ap (get Symbol-discrete s) (contracts-delete fl t.symbol e.open_trades)
            ∙ ground (
              arith,
              other,
              h,
              get-delete Symbol-discrete t.symbol s (contracts fl e.open_trades),
            ))
      ]
  Step-keeps s u (switched b) c h = inl h

  marked_stale :
      (env : Env) (e : Engine Num) (m : Map Symbol (Trade Num))
      → e.connected ≡ false
      → All (λ x. x.1.mark_stale ≡ true) (mark_all fl env e m)
  unfolding mark_all marked closable
  marked_stale env e [] off = tt
  marked_stale env e ((s, t) ∷ m) off = (ground (arith, off), marked_stale env e m off)

  dry_closable :
      (env : Env) (e : Engine Num) (u : Trade Num) → e.quotes ≡ [] → closable fl env e u ≢ true
  unfolding closable quote_for fresh_book get
  dry_closable env e u dry h = ground (arith, dry, h)

  -- Without quotes nothing can be closed.
  close_start_refuses :
      (env : Env) (id : String) (e : Engine Num) (t : Trade Num)
      → e.quotes ≡ []
      → close_start fl env id e ≢ closing t
  close_start_refuses env id e t dry h =
      let (u, (found, deep, eq)) = close_start_lem fl env id e t h in dry_closable env e u dry deep

  -- When the connection is lost, every open spread's mark is stale, and no spread can be closed,
  -- and none when the connection is back and no tick has come yet.
  pub reconnect_lem :
      (env env' env'' : Env) (id : String) (e : Engine Num) (t : Trade Num)
      → All (λ x. x.1.mark_stale ≡ true) (on_connection fl env false e).open_trades
        × (close_start fl env'' id (on_connection fl env false e) ≢ closing t)
        × (close_start fl env'' id (on_connection fl env' true (on_connection fl env false e))
            ≢ closing t)
  unfolding on_connection update_marks
  reconnect_lem env env' env'' id e t =
      let e₁ = record e { connected = false; quotes = []; previous = [] } in
      (
        marked_stale env e₁ e.open_trades refl,
        close_start_refuses env'' id (on_connection fl env false e) t refl,
        close_start_refuses env'' id (on_connection fl env' true (on_connection fl env false e)) t
            refl,
      )
