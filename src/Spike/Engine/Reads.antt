-- ===== src/Spike/Engine/Reads.antt =====
-- internal/spike/engine.go and actions.go: a new engine, its start, and the series of bars of a symbol.
use mathlib.Core.Option
use text.Mathlib.Text.{◌==◌ as str_eq}
use cal_spread_backend.Base.{
  ℕ, ◌≤◌, ◌≡◌, Bool, true, false, not, ◌||◌, List, [], ◌∷◌, leb, ltb, none, if◌then◌else◌, All,
  ℕ_discrete, arith, Bool-cases, inl, inr,
}
use cal_spread_backend.Base.Maps.{Map, get, put}
use cal_spread_backend.Base.Keys.{put-All}
use cal_spread_backend.Spike.Types.{Symbol, Symbol-discrete, nifty, sensex, Bar, IndexView}
use cal_spread_backend.Spike.Rules.{bucket_end}
use cal_spread_backend.Spike.Quote.{Namespace}
use cal_spread_backend.Spike.Engine.{Engine}

module _ {Num : Type 0} where
  abbrev pub new_view : Symbol → IndexView Num
  new_view s = record {
    symbol = s;
    expiry = "";
    pairs = 0;
    lot_size = 0;
    current = none;
    signal = none;
    note = "Waiting for Dhan data";
    recording_since = none;
  }

  unfoldable pub new_engine : Namespace → Engine Num
  new_engine zero_namespace = record {
    started = false;
    stopped = false;
    loaded = false;
    active = false;
    connected = false;
    paper = true;
    day = "";
    last_error = "";
    namespace = zero_namespace;
    universes = [];
    wanted = [];
    quotes = [];
    views = (nifty, new_view nifty) ∷ (sensex, new_view sensex) ∷ [];
    previous = [];
    windows = [];
    forming = [];
    bars = (nifty, []) ∷ (sensex, []) ∷ [];
    pending_bars = [];
    open_trades = [];
    closed = [];
    pending = [];
    refresh = false;
    candidates = [];
  }

  -- The locked part of `Start`: the engine, and whether it goes on.
  unfoldable pub start : Engine Num → Engine Num × Bool
  start e = if e.started || e.stopped then (e, false) else (record e { started = true }, true)

  -- The points in the order of time.
  unfoldable pub insert_bar : Bar Num → List (Bar Num) → List (Bar Num)
  insert_bar b [] = b ∷ []
  insert_bar b (x ∷ xs) =
      let rest = insert_bar b xs in if leb b.sample.t x.sample.t then b ∷ x ∷ xs else x ∷ rest

  unfoldable pub by_time : Map ℕ (Bar Num) → List (Bar Num)
  by_time [] = []
  by_time ((t, b) ∷ m) = insert_bar b (by_time m)

  -- The loop: the last point of each bucket that has ended, under the end of the bucket.
  unfoldable pub bucketed : ℕ → ℕ → Engine Num → Map ℕ (Bar Num) → List (Bar Num) → Map ℕ (Bar Num)
  bucketed minutes now e m [] = m
  bucketed minutes now e m (b ∷ bs) =
      let end = bucket_end b.sample.t minutes in
      let b' = record b { sample = record b.sample { t = end } } in
      bucketed minutes now e
        (if ltb now end || not (str_eq b.day e.day) then m else put ℕ_discrete end b' m) bs

  unfoldable pub series : Symbol → ℕ → ℕ → Engine Num → List (Bar Num)
  series s minutes now e =
      by_time
        (bucketed minutes now e [] (by_time (Option.get_or (get Symbol-discrete s e.bars) [])))

  -- A point of today whose bucket has ended.
  abbrev pub Shown : ℕ → Engine Num → Bar Num → Type 0
  Shown now e b = (b.sample.t ≤ now) × (str_eq b.day e.day ≡ true)

  bucketed-Shown :
      (minutes now : ℕ) (e : Engine Num) (bs : List (Bar Num)) (m : Map ℕ (Bar Num))
      → All (λ x. Shown now e x.1) m
      → All (λ x. Shown now e x.1) (bucketed minutes now e m bs)
  unfolding bucketed
  bucketed-Shown minutes now e [] m h = h
  bucketed-Shown minutes now e (b ∷ bs) m h =
      let end = bucket_end b.sample.t minutes in
      let b' = record b { sample = record b.sample { t = end } } in
      elim (Bool-cases (ltb now end || not (str_eq b.day e.day))) [
        | inl out ↦ rw out (bucketed-Shown minutes now e bs m h)
        | inr shown ↦ rw shown (
            bucketed-Shown minutes now e bs (put ℕ_discrete end b' m) (
              put-All ℕ_discrete (λ x. Shown now e x.1) end b' m
                (ground (arith, shown), ground (arith, shown)) h))
      ]

  insert_bar-All :
      (P : Bar Num → Type 0) (b : Bar Num) (bs : List (Bar Num))
      → P b
      → All P bs
      → All P (insert_bar b bs)
  unfolding insert_bar
  insert_bar-All P b [] p h = (p, tt)
  insert_bar-All P b (x ∷ xs) p h =
      elim (leb b.sample.t x.sample.t)
        as (λ c. All P (if c then b ∷ x ∷ xs else x ∷ insert_bar b xs)) [
          | true ↦ (p, h)
          | false ↦ (h.0, insert_bar-All P b xs p h.1)
        ]

  by_time-All :
      (P : Bar Num → Type 0) (m : Map ℕ (Bar Num)) → All (λ x. P x.1) m → All P (by_time m)
  unfolding by_time
  by_time-All P [] h = tt
  by_time-All P ((t, b) ∷ m) h = insert_bar-All P b (by_time m) h.0 (by_time-All P m h.1)

  -- Every point of a series is of the engine's day, and its bucket has ended.
  series-Shown :
      (s : Symbol) (minutes now : ℕ) (e : Engine Num) → All (Shown now e) (series s minutes now e)
  unfolding series
  series-Shown s minutes now e =
      let points = by_time (Option.get_or (get Symbol-discrete s e.bars) []) in
      by_time-All (Shown now e) (bucketed minutes now e [] points)
        (bucketed-Shown minutes now e points [] tt)
