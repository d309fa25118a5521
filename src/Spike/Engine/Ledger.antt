-- ===== src/Spike/Engine/Ledger.antt =====
-- The books of the engine of internal/spike: what holds of its open spreads, of its closed ones and
-- of the queue of candidates.
use cal_spread_backend.Base.{
  ℕ, ◌≡◌, refl, ap, sym, ◌∙◌, inl, inr, Bool, true, false, some, List, [], ◌∷◌, arith,
  if◌then◌else◌, Bool-cases, All, subst,
}
use cal_spread_backend.Base.Keys.{Unique}
use cal_spread_backend.Base.Maps.{Map}
use cal_spread_backend.Base.Float.{Float64}
use cal_spread_backend.Spike.Types.{
  Symbol, Symbol-discrete, nifty, sensex, Trade, Bar, closed_trade,
}
use cal_spread_backend.Spike.Rules.{gross_pnl}
use cal_spread_backend.Spike.Quote.{Tick}
use cal_spread_backend.Spike.Engine.{Engine, Env, Candidate, market_open}
use cal_spread_backend.Spike.Engine.Bars.{complete_bars, complete_one, complete_from}
use cal_spread_backend.Spike.Engine.Marks.{
  update_marks, on_connection, on_runtime_ready, invalidate, on_second, stop_start,
}
use cal_spread_backend.Spike.Engine.Evaluate.{
  Whole, evaluate, apply_tick, apply_ticks, listening, on_ticks,
}
use cal_spread_backend.Spike.Engine.Contracts.{
  contracts, contracts-mark_all, on_ticks-contracts, complete_from-SameTrades,
}
use cal_spread_backend.Spike.Engine.Fills.{Sound, Queue, evaluate-Queued, Queued-Queue}

module _ (fl : Float64) where
  open fl use {Num, le, lt, of_nat, mul, sub}

  -- An open spread stands under its symbol and is sound.
  abbrev pub Kept : Symbol × Trade Num → Type 0
  Kept (s, t) = (t.symbol ≡ s) × Sound fl t

  -- At most one open spread for each symbol.
  abbrev pub Opens : Map Symbol (Trade Num) → Type 0
  Opens m = Unique Symbol-discrete m × All Kept m

  -- A closed spread has both exit prices, and its profit is the one of these prices.
  abbrev pub Closed : Trade Num → Type 0
  Closed t =
      Sound fl t
      × (t.status ≡ closed_trade)
      × ((x : Num) × (y : Num) × ((t.short.exit ≡ some x)
            × (t.hedge.exit ≡ some y)
            × (t.pnl ≡ some (gross_pnl fl t x y))))

  -- The step leaves the contracts of the open spreads and the closed spreads alone, and keeps the
  -- queue within its bounds.
  abbrev pub Calm : Engine Num → Engine Num → Type 0
  Calm e e' =
      (contracts fl e'.open_trades ≡ contracts fl e.open_trades)
      × (e'.closed ≡ e.closed)
      × (Queue fl e.candidates → Queue fl e'.candidates)

  complete_from-candidates :
      (now : ℕ) (force : Bool) (m : Map Symbol (Bar Num)) (e : Engine Num)
      → (complete_from fl now force m e).candidates ≡ e.candidates
  unfolding complete_from complete_one
  complete_from-candidates now force [] e = refl
  complete_from-candidates now force ((s, b) ∷ m) e =
      ground (arith, complete_from-candidates now force m (complete_one fl now force s b e))

  apply_ticks-candidates :
      (env : Env) (ts : List (Tick Num)) (e : Engine Num)
      → (apply_ticks fl env ts e).candidates ≡ e.candidates
  unfolding apply_ticks apply_tick
  apply_ticks-candidates env [] e = refl
  apply_ticks-candidates env (t ∷ ts) e =
      ground (arith, apply_ticks-candidates env ts (apply_tick fl env t e))

  on_second-candidates :
      (env : Env) (e : Engine Num) → (on_second fl env e).candidates ≡ e.candidates
  unfolding on_second update_marks complete_bars
  on_second-candidates env e = complete_from-candidates env.now false e.forming e

  Queue-of : (cs ds : List (Candidate Num)) → cs ≡ ds → Queue fl ds → Queue fl cs
  Queue-of cs ds eq = subst (Queue fl) (sym eq)

  on_ticks-Queue :
      (whole : Whole fl) (env : Env) (ts : List (Tick Num)) (e : Engine Num)
      → Queue fl e.candidates
      → Queue fl (on_ticks fl whole env ts e).candidates
  unfolding on_ticks on_second
  on_ticks-Queue whole env ts e q =
      let e₁ = update_marks fl env (complete_bars fl env.now false (apply_ticks fl env ts e)) in
      let e₂ = evaluate fl whole env nifty e₁ in
      let e₃ = evaluate fl whole env sensex e₂ in
      let q₁ =
        subst (Queue fl)
          (sym
            (on_second-candidates env (apply_ticks fl env ts e) ∙ apply_ticks-candidates env ts e))
          q in
      let q₂ = Queued-Queue fl env nifty e₁ e₂ (evaluate-Queued fl whole env nifty e₁) q₁ in
      let q₃ = Queued-Queue fl env sensex e₂ e₃ (evaluate-Queued fl whole env sensex e₂) q₂ in
      elim (Bool-cases (listening fl env e)) [
        | inl on ↦ elim (Bool-cases (market_open env.now)) [
          | inl trading ↦
              Queue-of (on_ticks fl whole env ts e).candidates e₃.candidates
                (ground (arith, on, trading)) q₃
          | inr shut ↦
              Queue-of (on_ticks fl whole env ts e).candidates e₁.candidates
                (ground (arith, on, shut)) q₁
        ]
        | inr off ↦
            Queue-of (on_ticks fl whole env ts e).candidates e.candidates (ground (arith, off)) q
      ]

  pub on_ticks-Calm :
      (whole : Whole fl) (env : Env) (ts : List (Tick Num)) (e : Engine Num)
      → Calm e (on_ticks fl whole env ts e)
  on_ticks-Calm whole env ts e =
      let kept = on_ticks-contracts fl whole env ts e in
      (kept.0, kept.1, on_ticks-Queue whole env ts e)

  complete_bars-Calm :
      (now : ℕ) (force : Bool) (e : Engine Num) → Calm e (complete_bars fl now force e)
  unfolding complete_bars
  complete_bars-Calm now force e =
      let kept = complete_from-SameTrades fl now force e.forming e in
      (
        ap (contracts fl) kept.0,
        kept.1,
        subst (Queue fl) (sym (complete_from-candidates now force e.forming e)),
      )

  update_marks-Calm : (env : Env) (e : Engine Num) → Calm e (update_marks fl env e)
  unfolding update_marks
  update_marks-Calm env e = (contracts-mark_all fl env e e.open_trades, refl, λ q. q)

  Calm-trans : (e₁ e₂ e₃ : Engine Num) → Calm e₁ e₂ → Calm e₂ e₃ → Calm e₁ e₃
  Calm-trans e₁ e₂ e₃ p q = (q.0 ∙ p.0, q.1 ∙ p.1, λ c. q.2 (p.2 c))

  pub on_second-Calm : (env : Env) (e : Engine Num) → Calm e (on_second fl env e)
  unfolding on_second
  on_second-Calm env e =
      let e₁ = complete_bars fl env.now false e in
      Calm-trans e e₁ (update_marks fl env e₁) (complete_bars-Calm env.now false e)
        (update_marks-Calm env e₁)

  pub stop_start-Calm : (env : Env) (e : Engine Num) → Calm e (stop_start fl env e)
  unfolding stop_start
  stop_start-Calm env e =
      elim (e.stopped)
        as (λ b.
          Calm e (if b then e else complete_bars fl env.now true (record e { stopped = true }))) [
            | true ↦ (refl, refl, λ q. q)
            | false ↦ complete_bars-Calm env.now true (record e { stopped = true })
          ]

  pub on_connection-Calm :
      (env : Env) (b : Bool) (e : Engine Num) → Calm e (on_connection fl env b e)
  unfolding on_connection
  on_connection-Calm env true e = (refl, refl, λ q. q)
  on_connection-Calm env false e =
      update_marks-Calm env (record e { connected = false; quotes = []; previous = [] })

  pub on_runtime_ready-Calm : (env : Env) (e : Engine Num) → Calm e (on_runtime_ready fl env e)
  unfolding on_runtime_ready
  on_runtime_ready-Calm env e = update_marks-Calm env (record e { quotes = []; previous = [] })

  pub invalidate-Calm : (e : Engine Num) → Calm e (invalidate fl e)
  unfolding invalidate
  invalidate-Calm e = (refl, refl, λ h. h)
