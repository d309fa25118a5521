-- ===== src/Spike/Engine/Machine/Steps.antt =====
-- Each step of the engine of internal/spike keeps the books in order.
use mathlib.Core.Option
use text.Mathlib.Text.{◌==◌ as str_eq}
use cal_spread_backend.Base.{
  ◌≡◌, refl, ap, sym, ◌∙◌, ◌⊎◌, inl, inr, Bool, true, false, Option, none, some, String, [], ◌∷◌,
  arith, Bool-cases, Option-cases, All, subst,
}
use cal_spread_backend.Base.Keys.{put-Unique, delete-Unique, put-All, delete-All}
use cal_spread_backend.Base.Maps.{Map, get, put, delete}
use cal_spread_backend.Base.Float.{Float64}
use cal_spread_backend.Spike.Types.{Symbol, Symbol-discrete, Trade}
use cal_spread_backend.Spike.Rules.{gross_pnl}
use cal_spread_backend.Spike.Engine.{Engine, Env, Candidate, quote_for}
use cal_spread_backend.Spike.Engine.Marks.{closable, update_marks}
use cal_spread_backend.Spike.Engine.Trades.{
  may_enter, enter_done, find_open, close_start, close_done, closing, closed_now, unpend,
  set_paper_done,
}
use cal_spread_backend.Spike.Engine.Contracts.{contract, contracts, contracts-mark_all}
use cal_spread_backend.Spike.Engine.Fills.{Sound, Queue}
use cal_spread_backend.Spike.Engine.Ledger.{
  Kept, Opens, Closed, Calm, on_ticks-Calm, on_second-Calm, stop_start-Calm, on_connection-Calm,
  on_runtime_ready-Calm, invalidate-Calm,
}
use cal_spread_backend.Spike.Engine.Machine.{
  Flight, idle, entering, exiting, Machine, Quiet, ticks, second, connection, ready, dropped,
  stopped, Step, quiet, receive, enter_begin, enter_end, close_begin, close_failed, close_end,
  switched,
}

module _ (fl : Float64) where
  open fl use {Num, le, lt, of_nat, mul, sub}

  pub Quiet-Calm : {e e' : Engine Num} → Quiet fl e e' → Calm fl e e'
  Quiet-Calm (ticks {e = e} whole env ts) = on_ticks-Calm fl whole env ts e
  Quiet-Calm (second {e = e} env) = on_second-Calm fl env e
  Quiet-Calm (connection {e = e} env b) = on_connection-Calm fl env b e
  Quiet-Calm (ready {e = e} env) = on_runtime_ready-Calm fl env e
  Quiet-Calm (dropped {e = e}) = invalidate-Calm fl e
  Quiet-Calm (stopped {e = e} env) = stop_start-Calm fl env e

  pub get-contracts :
      (s : Symbol) (m : Map Symbol (Trade Num))
      → get Symbol-discrete s (contracts fl m) ≡ Option.map (contract fl) (get Symbol-discrete s m)
  unfolding get
  get-contracts s [] = refl
  get-contracts s ((k, t) ∷ m) = ground (arith, get-contracts s m)

  contracts-put :
      (s : Symbol) (t : Trade Num) (m : Map Symbol (Trade Num))
      → contracts fl (put Symbol-discrete s t m)
        ≡ put Symbol-discrete s (contract fl t) (contracts fl m)
  unfolding put
  contracts-put s t [] = refl
  contracts-put s t ((k, u) ∷ m) = ground (arith, contracts-put s t m)

  pub contracts-delete :
      (s : Symbol) (m : Map Symbol (Trade Num))
      → contracts fl (delete Symbol-discrete s m) ≡ delete Symbol-discrete s (contracts fl m)
  unfolding delete
  contracts-delete s [] = refl
  contracts-delete s ((k, u) ∷ m) = ground (arith, contracts-delete s m)

  -- A trade that is found among the open ones stands under its symbol.
  find_open-get :
      (id : String) (t : Trade Num) (m : Map Symbol (Trade Num))
      → Opens fl (contracts fl m)
      → find_open fl id m ≡ some t
      → (get Symbol-discrete t.symbol m ≡ some t) × Sound fl t
  unfolding find_open get
  find_open-get id t [] o h = absurd (ground arith)
  find_open-get id t ((s, u) ∷ m) o h = elim (Bool-cases (str_eq u.id id)) [
    | inl found ↦ (
      ground (arith, found, h, o.1.0.0),
      subst (Sound fl) {x = u} {y = t} (ground (arith, found, h)) o.1.0.1,
    )
    | inr other ↦
        let rest = find_open-get id t m (o.0.1, o.1.1) (ground (arith, other, h)) in
        (ground (arith, rest.0, o.0.0, get-contracts s m), rest.1)
  ]

  -- The test before an entry finds no open spread of the symbol.
  may_enter_absent :
      (env : Env) (c : Candidate Num) (e : Engine Num)
      → may_enter fl env c e ≡ true
      → get Symbol-discrete c.trade.symbol e.open_trades ≡ none
  unfolding may_enter
  may_enter_absent env c e h = ground (arith, h)

  pub close_start_lem :
      (env : Env) (id : String) (e : Engine Num) (t : Trade Num)
      → close_start fl env id e ≡ closing t
      → (u : Trade Num) × ((find_open fl id e.open_trades ≡ some u)
          × (closable fl env e u ≡ true)
          × (t ≡ closed_now fl env e u))
  unfolding close_start
  close_start_lem env id e t h = elim (Option-cases (find_open fl id e.open_trades)) [
    | inl missing ↦ absurd (ground (arith, h, missing))
    | inr (u, found) ↦ elim (Bool-cases (closable fl env e u)) [
      | inl deep ↦ (u, (found, deep, ground (arith, h, found, deep)))
      | inr shallow ↦ absurd (ground (arith, h, found, shallow))
    ]
  ]

  closed_now-Closed :
      (env : Env) (e : Engine Num) (u : Trade Num) → Sound fl u → Closed fl (closed_now fl env e u)
  unfolding gross_pnl
  closed_now-Closed env e u sound = (
    sound,
    refl,
    ((quote_for fl u.short.token e).ask, (quote_for fl u.hedge.token e).bid, (refl, refl, refl)),
  )

  unpend-open_trades :
      (t : Trade Num) (e : Engine Num) → (unpend fl t e).open_trades ≡ e.open_trades
  unpend-open_trades t e = ground arith

  -- An entry ends with the spreads as they were, or with one more.
  pub enter_done_lem :
      (env : Env) (c : Candidate Num) (b : Bool) (error : Option String) (e : Engine Num)
      → ((contracts fl (enter_done fl env c b error e).open_trades ≡ contracts fl e.open_trades)
          ⊎ ((b ≡ true)
              × (contracts fl (enter_done fl env c b error e).open_trades
                  ≡ put Symbol-discrete c.trade.symbol
                      (contract fl c.trade)
                      (contracts fl e.open_trades))))
        × ((enter_done fl env c b error e).closed ≡ e.closed)
        × ((enter_done fl env c b error e).candidates ≡ e.candidates)
  unfolding enter_done update_marks
  enter_done_lem env c b (some message) e = (inl (ground arith), ground arith, ground arith)
  enter_done_lem env c false none e = (inl (ground arith), ground arith, ground arith)
  enter_done_lem env c true none e = (
    inr (
      refl,
      contracts-mark_all fl env _ _
          ∙ contracts-put c.trade.symbol c.trade (unpend fl c.trade e).open_trades
          ∙ ap (λ m. put Symbol-discrete c.trade.symbol (contract fl c.trade) (contracts fl m))
              (unpend-open_trades c.trade e),
    ),
    ground arith,
    ground arith,
  )

  -- What holds of the method that is between its two stretches: an entry that passed its tests
  -- finds no open spread of its symbol, and a trade that is being closed is still open.
  abbrev pub Pending : Flight Num → Map Symbol (Trade Num) → Type 0
  Pending idle m = Unit {0}
  Pending (entering c b) m =
      Sound fl c.trade × (b ≡ true → get Symbol-discrete c.trade.symbol m ≡ none)
  Pending (exiting t) m =
      Closed fl t × ((u : Trade Num) × ((get Symbol-discrete t.symbol m ≡ some u) × (t.id ≡ u.id)))

  abbrev pub Received : Option (Candidate Num) → Type 0
  Received none = Unit {0}
  Received (some c) = Sound fl c.trade

  -- The books are in order: the contracts of the open spreads, the closed spreads, the queue, the
  -- candidate that was received and the method that is in flight.
  abbrev pub Books : Machine Num → Type 0
  Books m =
      Opens fl (contracts fl m.engine.open_trades)
      × All (Closed fl) m.engine.closed
      × Queue fl m.engine.candidates
      × Received m.received
      × Pending m.flight (contracts fl m.engine.open_trades)

  entered_Opens :
      (c : Candidate Num) (b : Bool) (m m' : Map Symbol (Trade Num))
      → Opens fl m
      → Pending (entering c b) m
      → (m' ≡ m) ⊎ ((b ≡ true) × (m' ≡ put Symbol-discrete c.trade.symbol (contract fl c.trade) m))
      → Opens fl m'
  entered_Opens c b m m' o p (inl same) = subst (Opens fl) (sym same) o
  entered_Opens c b m m' o p (inr (_, more)) = subst (Opens fl) (sym more) (
    put-Unique Symbol-discrete c.trade.symbol (contract fl c.trade) m o.0,
    put-All Symbol-discrete (Kept fl) c.trade.symbol (contract fl c.trade) m (refl, p.0) o.1,
  )

  pub Step-Books : {m m' : Machine Num} → Step fl m m' → Books m → Books m'
  unfolding close_done set_paper_done
  Step-Books (quiet {f = f} q) (o, c, w, r, p) =
      let calm = Quiet-Calm q in
      (
        subst (Opens fl) (sym calm.0) o,
        subst (All (Closed fl)) (sym calm.1) c,
        calm.2 w,
        r,
        subst (Pending f) (sym calm.0) p,
      )
  Step-Books (receive x xs more) (o, c, w, r, p) =
      let w' = subst (Queue fl) more w in (o, c, (omega (arith, w'.0), w'.1.1), w'.1.0, p)
  Step-Books (enter_begin {e = e} env x) (o, c, w, r, p) = (
    o,
    c,
    w,
    r,
    (
      r,
      λ h.
          get-contracts x.trade.symbol e.open_trades
          ∙ ap (Option.map (contract fl)) (may_enter_absent env x e h),
    ),
  )
  Step-Books (enter_end {e = e} {b = b} env x error) (o, c, w, r, p) =
      let m = contracts fl e.open_trades in
      let (books, c', w') = enter_done_lem env x b error e in
      (
        entered_Opens x b m (contracts fl (enter_done fl env x b error e).open_trades) o p books,
        subst (All (Closed fl)) (sym c') c,
        subst (Queue fl) (sym w') w,
        tt,
        tt,
      )
  Step-Books (close_begin {e = e} env id t h) (o, c, w, r, p) =
      let (u, (found, deep, eq)) = close_start_lem env id e t h in
      let (there, sound) = find_open-get id u e.open_trades o found in
      let m = contracts fl e.open_trades in
      (
        o,
        c,
        w,
        r,
        subst (λ (x : Trade Num). Pending (exiting x) m) {x = closed_now fl env e u} {y = t}
            (sym eq)
            (
              closed_now-Closed env e u sound,
              (
                contract fl u,
                (get-contracts u.symbol e.open_trades ∙ ap (Option.map (contract fl)) there, refl),
              ),
            ),
      )
  Step-Books (close_failed) (o, c, w, r, p) = (o, c, w, r, tt)
  Step-Books (close_end {e = e} {t = t}) (o, c, w, r, p) =
      let eq = contracts-delete t.symbol e.open_trades in
      (
        subst (Opens fl) (sym eq) (
          delete-Unique Symbol-discrete t.symbol (contracts fl e.open_trades) o.0,
          delete-All Symbol-discrete (Kept fl) t.symbol (contracts fl e.open_trades) o.1,
        ),
        (p.0, c),
        w,
        r,
        tt,
      )
  Step-Books (switched b) (o, c, w, r, p) = (o, c, w, r, tt)
