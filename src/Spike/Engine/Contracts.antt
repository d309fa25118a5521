-- ===== src/Spike/Engine/Contracts.antt =====
-- What the engine of internal/spike may do to an open spread, and when it queues a new one.
use mathlib.Core.Option
use cal_spread_backend.Base.{
  ℕ, ◌≡◌, refl, ◌∙◌, inl, inr, Bool, true, false, Option, none, some, List, [], ◌∷◌, arith,
  Option-cases,
}
use cal_spread_backend.Base.Maps.{Map, get}
use cal_spread_backend.Base.Float.{Float64}
use cal_spread_backend.Spike.Types.{
  Symbol, Symbol-discrete, nifty, sensex, Sample, Signal, Trade, Bar, IndexView,
}
use cal_spread_backend.Spike.Window.{references}
use cal_spread_backend.Spike.Rules.{Pair, Universe, qualify}
use cal_spread_backend.Spike.Quote.{Tick}
use cal_spread_backend.Spike.Engine.{Engine, Env}
use cal_spread_backend.Spike.Engine.Bars.{complete_bars, complete_one, complete_from, form_bar}
use cal_spread_backend.Spike.Engine.Marks.{marked, mark_all, update_marks}
use cal_spread_backend.Spike.Engine.Evaluate.{
  Whole, offer, try_entry, on_signal, signalled, evaluate_pair, evaluate, apply_tick, apply_ticks,
  on_ticks, view_of, previous_of, sampled_view, no_window, minimum_from,
}

module _ (fl : Float64) where
  open fl use {Num, le, lt, of_nat, mul, sub}

  -- A trade without its marks: the contract, which no quote may change.
  abbrev pub contract : Trade Num → Trade Num
  contract t = record t {
    mark_short = none;
    mark_hedge = none;
    mark_at = none;
    pnl = none;
    mark_stale = true;
  }

  abbrev pub contracts : Map Symbol (Trade Num) → Map Symbol (Trade Num)
  contracts [] = []
  contracts ((s, t) ∷ m) = (s, contract t) ∷ contracts m

  pub contract-marked :
      (env : Env) (e : Engine Num) (t : Trade Num) → contract (marked fl env e t) ≡ contract t
  unfolding marked
  contract-marked env e t = ground arith

  pub contracts-mark_all :
      (env : Env) (e : Engine Num) (m : Map Symbol (Trade Num))
      → contracts (mark_all fl env e m) ≡ contracts m
  unfolding mark_all
  contracts-mark_all env e [] = refl
  contracts-mark_all env e ((s, t) ∷ m) =
      ground (arith, contract-marked env e t, contracts-mark_all env e m)

  -- The parts of the state that hold trades.
  abbrev pub SameTrades : Engine Num → Engine Num → Type 0
  SameTrades e e' = (e'.open_trades ≡ e.open_trades) × (e'.closed ≡ e.closed)

  pub SameTrades-trans :
      (e₁ e₂ e₃ : Engine Num) → SameTrades e₁ e₂ → SameTrades e₂ e₃ → SameTrades e₁ e₃
  SameTrades-trans e₁ e₂ e₃ p q = (q.0 ∙ p.0, q.1 ∙ p.1)

  complete_one-SameTrades :
      (now : ℕ) (force : Bool) (s : Symbol) (b : Bar Num) (e : Engine Num)
      → SameTrades e (complete_one fl now force s b e)
  unfolding complete_one
  complete_one-SameTrades now force s b e = ground arith

  pub complete_from-SameTrades :
      (now : ℕ) (force : Bool) (m : Map Symbol (Bar Num)) (e : Engine Num)
      → SameTrades e (complete_from fl now force m e)
  unfolding complete_from
  complete_from-SameTrades now force [] e = (refl, refl)
  complete_from-SameTrades now force ((s, b) ∷ m) e =
      SameTrades-trans e (complete_one fl now force s b e)
        (complete_from fl now force m (complete_one fl now force s b e))
        (complete_one-SameTrades now force s b e)
        (complete_from-SameTrades now force m (complete_one fl now force s b e))

  apply_tick-SameTrades :
      (env : Env) (t : Tick Num) (e : Engine Num) → SameTrades e (apply_tick fl env t e)
  unfolding apply_tick
  apply_tick-SameTrades env t e = ground arith

  apply_ticks-SameTrades :
      (env : Env) (ts : List (Tick Num)) (e : Engine Num) → SameTrades e (apply_ticks fl env ts e)
  unfolding apply_ticks
  apply_ticks-SameTrades env [] e = (refl, refl)
  apply_ticks-SameTrades env (t ∷ ts) e =
      SameTrades-trans e (apply_tick fl env t e) (apply_ticks fl env ts (apply_tick fl env t e))
        (apply_tick-SameTrades env t e) (apply_ticks-SameTrades env ts (apply_tick fl env t e))

  offer-SameTrades : (s : Symbol) (t : Trade Num) (e : Engine Num) → SameTrades e (offer fl s t e).0
  unfolding offer
  offer-SameTrades s t e = ground arith

  try_entry-SameTrades :
      (whole : Whole fl) (env : Env) (s : Symbol) (u : Universe Num) (p : Pair Num)
      (signal : Signal Num) (e : Engine Num)
      → SameTrades e (try_entry fl whole env s u p signal e).0
  unfolding try_entry offer
  try_entry-SameTrades whole env s u p signal e = ground arith

  signalled-SameTrades :
      (whole : Whole fl) (env : Env) (s : Symbol) (u : Universe Num) (p : Pair Num)
      (v : IndexView Num) (signal : Option (Signal Num)) (e : Engine Num)
      → SameTrades e (signalled fl whole env s u p v signal e).0
  unfolding signalled on_signal
  signalled-SameTrades whole env s u p v none e = (refl, refl)
  signalled-SameTrades whole env s u p v (some signal) e =
      ground (arith, try_entry-SameTrades whole env s u p signal e)

  evaluate_pair-SameTrades :
      (whole : Whole fl) (env : Env) (s : Symbol) (u : Universe Num) (p : Pair Num)
      (sample : Sample Num) (e : Engine Num)
      → SameTrades e (evaluate_pair fl whole env s u p sample e)
  unfolding evaluate_pair form_bar
  evaluate_pair-SameTrades whole env s u p sample e =
      let view = sampled_view fl whole env p sample (view_of fl s e) in
      let refs =
        (references fl env.now
          (Option.get_or (get Symbol-discrete s e.windows) (no_window fl))).1 in
      signalled-SameTrades whole env s u p view (qualify fl (previous_of fl s e) sample refs) e

  evaluate-SameTrades :
      (whole : Whole fl) (env : Env) (s : Symbol) (e : Engine Num)
      → SameTrades e (evaluate fl whole env s e)
  unfolding evaluate
  evaluate-SameTrades whole env s e = elim (Option-cases (get Symbol-discrete s e.universes)) [
    | inl missing ↦ ground (arith, missing)
    | inr (u, there) ↦ elim (Option-cases (minimum_from fl env.now u.expiry none u.pairs e)) [
      | inl dry ↦ ground (arith, there, dry)
      | inr (b, best) ↦
          ground (arith, there, best, evaluate_pair-SameTrades whole env s u b.0 b.1 e)
    ]
  ]

  -- No batch of ticks opens, closes or changes a spread: it may only renew the marks, and the closed
  -- spreads stay as they are.
  pub on_ticks-contracts :
      (whole : Whole fl) (env : Env) (ts : List (Tick Num)) (e : Engine Num)
      → (contracts (on_ticks fl whole env ts e).open_trades ≡ contracts e.open_trades)
        × ((on_ticks fl whole env ts e).closed ≡ e.closed)
  unfolding on_ticks update_marks complete_bars
  on_ticks-contracts whole env ts e =
      let e₀ = apply_ticks fl env ts e in
      let e₁ = complete_bars fl env.now false e₀ in
      let e₂ = update_marks fl env e₁ in
      let e₃ = evaluate fl whole env nifty e₂ in
      ground (
        arith,
        apply_ticks-SameTrades env ts e,
        complete_from-SameTrades env.now false e₀.forming e₀,
        contracts-mark_all env e₁ e₁.open_trades,
        evaluate-SameTrades whole env nifty e₂,
        evaluate-SameTrades whole env sensex e₃,
      )
