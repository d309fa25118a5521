-- ===== src/Spike/Engine/Saved.antt =====
-- The one-minute bars of internal/spike/engine.go: their extremes, and that none is lost before it
-- is saved.
use text.Mathlib.TextEquality.{eq_iff}
use text.Mathlib.TextPositions.{eq_refl}
use cal_spread_backend.Base.{
  ℕ, ◌+◌, ◌≡◌, ◌≢◌, refl, ◌∙◌, ◌⊎◌, inl, inr, Bool, true, false, ◌||◌, Option, none, some, String,
  [], ◌∷◌, arith, leb, Bool-cases, Option-cases, All, subst, if◌then◌else◌,
}
use cal_spread_backend.Base.Maps.{Map, get, get-delete}
use cal_spread_backend.Base.Keys.{Unique, All-get, put-All}
use cal_spread_backend.Base.Float.{Float64, lt-not_le}
use cal_spread_backend.Spike.Types.{Symbol, Symbol-discrete, Sample, Bar}
use cal_spread_backend.Spike.Rules.{bucket_end}
use cal_spread_backend.Spike.Engine.{Engine, BarKey}
use cal_spread_backend.Spike.Engine.Bars.{
  same_key, put_key, get_key, complete_one, complete_from, complete_bars, bar_at, widen, form_bar,
  restore, flush_failed,
}

same_key_refl : (k : BarKey) → same_key k k ≡ true
unfolding same_key
same_key_refl (s, d, t) = ground (arith, eq_refl d)

same_key-to : (j k : BarKey) → same_key j k ≡ true → j ≡ k
unfolding same_key
same_key-to (s, d, t) (s', d', t') h = ground (arith, h, (eq_iff d d').0)

module _ {V : Type 0} where
  get_key-put_key :
      (k j : BarKey) (v : V) (m : Map BarKey V)
      → get_key k (put_key j v m) ≡ (if same_key j k then some v else get_key k m)
  unfolding get_key put_key
  get_key-put_key k j v [] = refl
  get_key-put_key k j v ((i, w) ∷ m) = elim (Bool-cases (same_key i j)) [
    | inl same ↦ ground (arith, same, same_key-to i j same)
    | inr other ↦
        ground
          (arith, other, get_key-put_key k j v m, same_key-to i k, same_key-to j k, same_key_refl j)
  ]

  -- The first value that is there.
  abbrev pub or_else : Option V → Option V → Option V
  or_else none o = o
  or_else (some v) o = some v

module _ (fl : Float64) where
  open fl use {Num, lt, finite}

  restore_lem :
      (k : BarKey) (taken m : Map BarKey (Bar Num))
      → get_key k (restore fl taken m) ≡ or_else (get_key k m) (get_key k taken)
  unfolding restore get_key
  restore_lem k [] m = ground arith
  restore_lem k ((j, b) ∷ taken) m = elim (Option-cases (get_key j m)) [
    | inl absent ↦ ground (
      arith,
      absent,
      restore_lem k taken (put_key j b m),
      get_key-put_key k j b m,
      same_key-to j k,
    )
    | inr (c, there) ↦ ground (arith, there, restore_lem k taken m, same_key-to j k)
  ]

  -- When saving fails, the bars that were taken are pending again, except where a newer version of
  -- the bar is pending already, and the error is kept.
  pub flush_failed_lem :
      (k : BarKey) (taken : Map BarKey (Bar Num)) (error : String) (e : Engine Num)
      → (get_key k (flush_failed fl taken error e).pending_bars
          ≡ or_else (get_key k e.pending_bars) (get_key k taken))
        × ((flush_failed fl taken error e).last_error ≡ error)
  unfolding flush_failed
  flush_failed_lem k taken error e = (restore_lem k taken e.pending_bars, refl)

  -- The extremes of a bar are finite and ordered, and hold its sample between them.
  abbrev pub Spans : Bar Num → Type 0
  Spans b =
      (finite b.low ≡ true)
      × (finite b.high ≡ true)
      × (lt b.sample.premium b.low ≡ false)
      × (lt b.high b.sample.premium ≡ false)
      × (lt b.high b.low ≡ false)

  widen-Spans :
      (sample : Sample Num) (now : ℕ) (b : Bar Num)
      → b.sample.premium ≡ sample.premium
      → finite sample.premium ≡ true
      → finite b.low ≡ true
      → finite b.high ≡ true
      → lt b.high b.low ≡ false
      → Spans (widen fl sample now b)
  unfolding widen
  widen-Spans sample now b eq p q r h = ground (
    arith,
    lt-not_le fl sample.premium b.low,
    lt-not_le fl sample.premium b.high,
    lt-not_le fl b.high b.low,
    lt-not_le fl b.low sample.premium,
    lt-not_le fl b.high sample.premium,
    lt-not_le fl sample.premium sample.premium,
    fl.lt_le b.high b.low,
    fl.lt_le b.low sample.premium,
    fl.lt_le sample.premium b.low,
    fl.lt_le b.high sample.premium,
    fl.lt_le sample.premium sample.premium,
    fl.le_trans b.low b.high sample.premium,
    fl.le_trans b.low sample.premium b.high,
    fl.le_trans sample.premium b.low b.high,
    fl.le_total b.low b.high,
    fl.le_total sample.premium sample.premium,
    fl.le_total b.low sample.premium,
    fl.le_total sample.premium b.high,
  )

  -- A bar of the minute, with the new sample in place of the last, before its extremes are renewed.
  bar_at_lem :
      (s : Symbol) (sample : Sample Num) (now : ℕ) (e : Engine Num)
      → finite sample.premium ≡ true
      → All (λ x. Spans x.1) e.forming
      → (finite (bar_at fl s sample now e).low ≡ true)
        × (finite (bar_at fl s sample now e).high ≡ true)
        × (lt (bar_at fl s sample now e).high (bar_at fl s sample now e).low ≡ false)
  unfolding bar_at
  bar_at_lem s sample now e p h = elim (Option-cases (get Symbol-discrete s e.forming)) [
    | inl absent ↦ ground (arith, absent, p, fl.lt_le sample.premium sample.premium)
    | inr (b, there) ↦
        let spans = All-get Symbol-discrete (λ x. Spans x.1) s b e.forming h there in
        ground (arith, there, p, fl.lt_le sample.premium sample.premium, spans.0, spans.1, spans.4)
  ]

  -- If the extremes of every forming bar are ordered and hold its last sample, then they do after a
  -- sample with a finite premium has been added.
  pub form_bar-Spans :
      (s : Symbol) (sample : Sample Num) (now : ℕ) (e : Engine Num)
      → finite sample.premium ≡ true
      → All (λ x. Spans x.1) e.forming
      → All (λ x. Spans x.1) (form_bar fl s sample now e).forming
  unfolding form_bar
  form_bar-Spans s sample now e p h =
      let b = bar_at fl s sample now e in
      let b' = record b { sample = record sample { t = bucket_end (now + 1) 1 } } in
      let good = bar_at_lem s sample now e p h in
      put-All Symbol-discrete (λ x. Spans x.1) s (widen fl sample now b') e.forming
        (widen-Spans sample now b' refl p good.0 good.1 good.2) h

  complete_from_absent :
      (now : ℕ) (force : Bool) (s : Symbol) (d : String) (t : ℕ) (m : Map Symbol (Bar Num))
      (e : Engine Num)
      → get Symbol-discrete s m ≡ none
      → (get Symbol-discrete s (complete_from fl now force m e).forming
          ≡ get Symbol-discrete s e.forming)
        × (get_key (s, d, t) (complete_from fl now force m e).pending_bars
            ≡ get_key (s, d, t) e.pending_bars)
  unfolding complete_from complete_one get same_key
  complete_from_absent now force s d t [] e h = (refl, refl)
  complete_from_absent now force s d t ((k, b) ∷ m) e h =
      let rest =
        complete_from_absent now force s d t m (complete_one fl now force k b e)
          (ground (arith, h)) in
      ground (
        arith,
        h,
        rest,
        get-delete Symbol-discrete k s e.forming,
        get_key-put_key (s, d, t) (k, b.day, b.sample.t) b e.pending_bars,
      )

  -- The bar was due, is no longer forming and waits to be saved; or it goes on forming.
  abbrev pub Kept : ℕ → Bool → Symbol → Bar Num → Engine Num → Type 0
  Kept now force s b e =
      ((leb b.sample.t now || force ≡ true)
        × (get Symbol-discrete s e.forming ≡ none)
        × (get_key (s, b.day, b.sample.t) e.pending_bars ≡ some b))
      ⊎ ((leb b.sample.t now || force ≡ false) × (get Symbol-discrete s e.forming ≡ some b))

  Kept-same :
      (now : ℕ) (force : Bool) (s : Symbol) (b : Bar Num) (e e' : Engine Num)
      → get Symbol-discrete s e'.forming ≡ get Symbol-discrete s e.forming
      → get_key (s, b.day, b.sample.t) e'.pending_bars
        ≡ get_key (s, b.day, b.sample.t) e.pending_bars
      → Kept now force s b e
      → Kept now force s b e'
  Kept-same now force s b e e' p q (inl (due, gone, saved)) = inl (due, p ∙ gone, q ∙ saved)
  Kept-same now force s b e e' p q (inr (early, stays)) = inr (early, p ∙ stays)

  complete_one-Kept :
      (now : ℕ) (force : Bool) (s : Symbol) (b : Bar Num) (e : Engine Num)
      → get Symbol-discrete s e.forming ≡ some b
      → Kept now force s b (complete_one fl now force s b e)
  unfolding complete_one
  complete_one-Kept now force s b e f = elim (Bool-cases (leb b.sample.t now || force)) [
    | inl due ↦ inl (
      due,
      ground (arith, due, get-delete Symbol-discrete s s e.forming),
      ground (
        arith,
        due,
        get_key-put_key (s, b.day, b.sample.t) (s, b.day, b.sample.t) b e.pending_bars,
        same_key_refl (s, b.day, b.sample.t),
      ),
    )
    | inr early ↦ inr (early, ground (arith, early, f))
  ]

  complete_one_other :
      (now : ℕ) (force : Bool) (s k : Symbol) (c : Bar Num) (e : Engine Num)
      → k ≢ s
      → get Symbol-discrete s (complete_one fl now force k c e).forming
        ≡ get Symbol-discrete s e.forming
  unfolding complete_one
  complete_one_other now force s k c e h =
      ground (arith, h, get-delete Symbol-discrete k s e.forming)

  complete_from_lem :
      (now : ℕ) (force : Bool) (s : Symbol) (b : Bar Num) (m : Map Symbol (Bar Num))
      (e : Engine Num)
      → Unique Symbol-discrete m
      → get Symbol-discrete s m ≡ some b
      → get Symbol-discrete s e.forming ≡ some b
      → Kept now force s b (complete_from fl now force m e)
  unfolding complete_from get
  complete_from_lem now force s b [] e u h f = absurd (ground (arith, h))
  complete_from_lem now force s b ((k, c) ∷ m) e u h f = elim (Symbol-discrete k s) [
    | yes same ↦
        let e' = complete_one fl now force s b e in
        let absent =
          complete_from_absent now force s b.day b.sample.t m e' (ground (arith, same, u.0)) in
        subst
          (λ (x : Symbol × Bar Num).
            Kept now force s b (complete_from fl now force m (complete_one fl now force x.0 x.1 e)))
          {x = (s, b)} {y = (k, c)} (ground (arith, same, h))
          (Kept-same now force s b e' (complete_from fl now force m e') absent.0 absent.1
            (complete_one-Kept now force s b e f))
    | no other ↦
        complete_from_lem now force s b m (complete_one fl now force k c e) u.1
          (ground (arith, other, h)) (complete_one_other now force s k c e other ∙ f)
  ]

  -- With one forming bar at most for each symbol, completing the bars moves each forming bar whose
  -- minute is over, or every one when that is forced, to those that wait to be saved, under its own
  -- key and as it was, and leaves the others forming.
  pub complete_bars_lem :
      (now : ℕ) (force : Bool) (s : Symbol) (b : Bar Num) (e : Engine Num)
      → Unique Symbol-discrete e.forming
      → get Symbol-discrete s e.forming ≡ some b
      → Kept now force s b (complete_bars fl now force e)
  unfolding complete_bars
  complete_bars_lem now force s b e u h = complete_from_lem now force s b e.forming e u h h
