-- ===== src/Spike/Engine/Fills.antt =====
-- What `tradeAtCrossLocked` of internal/spike/engine.go lets through, and what waits in the queue
-- of candidates.
use mathlib.Core.Option
use text.Mathlib.Text.{◌==◌ as str_eq}
use cal_spread_backend.Base.{
  ℕ, ◌≤◌, ◌<◌, ◌≡◌, refl, sym, ◌∙◌, ◌⊎◌, inl, inr, true, false, ◌&&◌, not, Option, none, some,
  String, List, [], ◌∷◌, ◌++◌, arith, Bool-cases, Option-cases, length, length-append, All, subst,
}
use cal_spread_backend.Base.Filter.{append-All}
use cal_spread_backend.Base.Maps.{get}
use cal_spread_backend.Base.Float.{Float64}
use cal_spread_backend.Spike.Types.{
  Symbol, Symbol-discrete, Sample, Signal, Trade, IndexView, open_trade,
}
use cal_spread_backend.Spike.Window.{references}
use cal_spread_backend.Spike.Rules.{Instrument, Pair, Universe, qualify, hedge_for}
use cal_spread_backend.Spike.Quote.{Quote, fresh_book}
use cal_spread_backend.Spike.Engine.{Engine, Env, Candidate, quote_for}
use cal_spread_backend.Spike.Engine.Bars.{form_bar}
use cal_spread_backend.Spike.Engine.Evaluate.{
  Whole, Entry, entered, skipped, trade_at_cross, offer, try_entry, on_signal, signalled,
  evaluate_pair, evaluate, is_open, pending_of, view_of, previous_of, sampled_view, no_window, same,
  minimum_from,
}

module _ (fl : Float64) where
  open fl use {Num, le, lt, of_nat, mul, sub}

  -- A trade of a positive quantity that was entered for a credit that is not negative.
  abbrev pub Sound : Trade Num → Type 0
  Sound t =
      (0 < t.quantity)
      × (lt t.short.entry t.hedge.entry ≡ false)
      × (t.entry_credit ≡ mul (of_nat t.quantity) (sub t.short.entry t.hedge.entry))

  -- One lot of a spread, sold and bought at the touch of two books that can fill it.
  abbrev pub FilledAt :
      Whole fl → ℕ → Instrument Num → Instrument Num → Quote Num → Quote Num → Trade Num → Type 0
  FilledAt whole now short hedge a b t =
      (t.quantity ≡ whole short.lot_size)
      × (same fl (of_nat t.quantity) short.lot_size ≡ true)
      × (same fl hedge.lot_size short.lot_size ≡ true)
      × (t.short.entry ≡ a.bid)
      × (t.hedge.entry ≡ b.ask)
      × (fresh_book fl now a ≡ true)
      × (fresh_book fl now b ≡ true)
      × (lt a.bid_qty (of_nat t.quantity) ≡ false)
      × (lt b.ask_qty (of_nat t.quantity) ≡ false)

  Entry-cases :
      (x : Entry Num) → ((m : String) × (x ≡ skipped m)) ⊎ ((t : Trade Num) × (x ≡ entered t))
  Entry-cases (skipped m) = inl (m, refl)
  Entry-cases (entered t) = inr (t, refl)

  -- A trade that is entered has the whole lot of both contracts as its quantity, sells the short
  -- option at its bid and buys the hedge at its ask, both from fresh books with enough quantity at
  -- the touch, for a credit that is not negative; it is open and its marks are stale.
  trade_at_cross_lem :
      (whole : Whole fl) (env : Env) (s : Symbol) (short hedge : Instrument Num)
      (signal : Signal Num) (e : Engine Num) (t : Trade Num)
      → trade_at_cross fl whole env s short hedge signal e ≡ entered t
      → FilledAt whole env.now short hedge
          (quote_for fl short.instrument_token e)
          (quote_for fl hedge.instrument_token e)
          t
        × Sound t
        × (t.status ≡ open_trade)
        × (t.mark_stale ≡ true)
        × (t.symbol ≡ s)
  unfolding trade_at_cross
  trade_at_cross_lem whole env s short hedge signal e t h = ground arith

  -- The trade is put behind the candidates of a queue that has room for it.
  abbrev pub Appended : Trade Num → Engine Num → Engine Num → Type 0
  Appended t e e' =
      (e'.candidates ≡ e.candidates ++ record { trade = t; namespace = e.namespace } ∷ [])
      × (length e.candidates < 2)

  -- The conditions for a new spread of the symbol.
  abbrev pub Wanted : Env → Symbol → Engine Num → Type 0
  Wanted env s e =
      (e.paper ≡ true)
      × (env.db_enabled ≡ true)
      × (get Symbol-discrete s e.open_trades ≡ none)
      × (str_eq (pending_of fl s e) "" ≡ true)

  -- The queue is as it was, or a sound trade was appended that was wanted.
  abbrev pub Queued : Env → Symbol → Engine Num → Engine Num → Type 0
  Queued env s e e' =
      (e'.candidates ≡ e.candidates)
      ⊎ ((t : Trade Num) × (Appended t e e' × Sound t × (t.symbol ≡ s) × Wanted env s e))

  Queued-same :
      (env : Env) (s : Symbol) (e e' e'' : Engine Num)
      → e''.candidates ≡ e'.candidates
      → Queued env s e e'
      → Queued env s e e''
  Queued-same env s e e' e'' eq (inl stays) = inl (eq ∙ stays)
  Queued-same env s e e' e'' eq (inr (t, (added, sound, named, wanted))) =
      inr (t, ((eq ∙ added.0, added.1), sound, named, wanted))

  offer-Appended :
      (s : Symbol) (t : Trade Num) (e : Engine Num)
      → ((offer fl s t e).0.candidates ≡ e.candidates) ⊎ Appended t e (offer fl s t e).0
  unfolding offer
  offer-Appended s t e = ground arith

  try_entry-Queued :
      (whole : Whole fl) (env : Env) (s : Symbol) (u : Universe Num) (p : Pair Num)
      (signal : Signal Num) (e : Engine Num)
      → Wanted env s e
      → Queued env s e (try_entry fl whole env s u p signal e).0
  unfolding try_entry
  try_entry-Queued whole env s u p signal e w =
      elim (Option-cases (hedge_for u p signal.direction)) [
        | inl dry ↦ inl (ground (arith, dry))
        | inr (x, found) ↦ elim (Entry-cases (trade_at_cross fl whole env s x.0 x.1 signal e)) [
          | inl (m, skip) ↦ inl (ground (arith, found, skip))
          | inr (t, enter) ↦
              let fill = trade_at_cross_lem whole env s x.0 x.1 signal e t enter in
              elim (offer-Appended s t e) [
                | inl stays ↦ inl (ground (arith, found, enter, stays))
                | inr added ↦ inr (t, (ground (arith, found, enter, added), fill.1, fill.4, w))
              ]
        ]
      ]

  signalled-Queued :
      (whole : Whole fl) (env : Env) (s : Symbol) (u : Universe Num) (p : Pair Num)
      (v : IndexView Num) (signal : Option (Signal Num)) (e : Engine Num)
      → Queued env s e (signalled fl whole env s u p v signal e).0
  unfolding signalled on_signal
  signalled-Queued whole env s u p v none e = inl refl
  signalled-Queued whole env s u p v (some signal) e =
      elim (Bool-cases
        (e.paper && env.db_enabled && not (is_open fl s e) && str_eq (pending_of fl s e) "")) [
          | inl wanted ↦
              Queued-same env s e (try_entry fl whole env s u p signal e).0
                (signalled fl whole env s u p v (some signal) e).0 (ground arith)
                (try_entry-Queued whole env s u p signal e (ground (arith, wanted)))
          | inr idle ↦ inl (ground (arith, idle))
        ]

  evaluate_pair-Queued :
      (whole : Whole fl) (env : Env) (s : Symbol) (u : Universe Num) (p : Pair Num)
      (sample : Sample Num) (e : Engine Num)
      → Queued env s e (evaluate_pair fl whole env s u p sample e)
  unfolding evaluate_pair form_bar
  evaluate_pair-Queued whole env s u p sample e =
      let view = sampled_view fl whole env p sample (view_of fl s e) in
      let refs =
        (references fl env.now
          (Option.get_or (get Symbol-discrete s e.windows) (no_window fl))).1 in
      signalled-Queued whole env s u p view (qualify fl (previous_of fl s e) sample refs) e

  -- Evaluating a symbol leaves the queue as it was or appends one sound trade of the symbol to at
  -- most one candidate, and then paper entries are on, there is a database, and the symbol has
  -- neither an open spread nor a pending one.
  pub evaluate-Queued :
      (whole : Whole fl) (env : Env) (s : Symbol) (e : Engine Num)
      → Queued env s e (evaluate fl whole env s e)
  unfolding evaluate
  evaluate-Queued whole env s e = elim (Option-cases (get Symbol-discrete s e.universes)) [
    | inl missing ↦ inl (ground (arith, missing))
    | inr (u, there) ↦ elim (Option-cases (minimum_from fl env.now u.expiry none u.pairs e)) [
      | inl dry ↦ inl (ground (arith, there, dry))
      | inr (b, best) ↦
          Queued-same env s e (evaluate_pair fl whole env s u b.0 b.1 e) (evaluate fl whole env s e)
            (ground (arith, there, best)) (evaluate_pair-Queued whole env s u b.0 b.1 e)
    ]
  ]

  -- The queue holds at most two candidates, each of them sound.
  abbrev pub Queue : List (Candidate Num) → Type 0
  Queue cs = (length cs ≤ 2) × All (λ c. Sound c.trade) cs

  pub Queued-Queue :
      (env : Env) (s : Symbol) (e e' : Engine Num)
      → Queued env s e e'
      → Queue e.candidates
      → Queue e'.candidates
  Queued-Queue env s e e' (inl eq) q = subst Queue (sym eq) q
  Queued-Queue env s e e' (inr (t, (added, sound, _, _))) q =
      let c : Candidate Num = record { trade = t; namespace = e.namespace } in
      subst Queue (sym added.0) (
        omega (arith, length-append e.candidates (c ∷ []), added.1),
        append-All (λ c. Sound c.trade) e.candidates (c ∷ []) q.1 (sound, tt),
      )
