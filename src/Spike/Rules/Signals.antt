-- ===== src/Spike/Rules/Signals.antt =====
-- The entry rule of internal/spike against its conditions, written out.
use mathlib.Core.List.{Memᴰ}
use cal_spread_backend.Base.{
  ◌+◌, ◌≤◌, ◌<◌, ◌≡◌, refl, subst, ◌⊎◌, inl, inr, true, false, Option, none, some, List, [], ◌∷◌,
  arith, All, Bool-cases, Option-cases,
}
use cal_spread_backend.Base.Float.{Float64}
use cal_spread_backend.Spike.Types.{
  Sample, Signal, Direction, call_credit, put_credit, window_ms, quote_age_ms,
}
use cal_spread_backend.Spike.Rules.{
  minimum_move_pct, comparable, crossing, eligible, improves, move_of, too_small, signal_of,
  qualify,
}
use cal_spread_backend.Spike.Rules.Entry.{IsReference, NoneAble, scan_none}

module _ (fl : Float64) where
  open fl use {Num, le, lt, finite, add, sub, mul, div, neg, of_nat, nano}

  -- The samples follow each other within the age of a quote, with positive average prices.
  pub record IsPair (previous current : Sample Num) : Type 0 where
    pub started : 0 < previous.t
    pub in_order : previous.t ≤ current.t
    pub recent : current.t ≤ previous.t + quote_age_ms
    pub old_vwap : le previous.vwap (of_nat 0) ≡ false
    pub new_vwap : le current.vwap (of_nat 0) ≡ false
    pub premium_finite : finite current.premium ≡ true
    pub vwap_finite : finite current.vwap ≡ true

  -- The premium rises from at most its average to above it, or falls from at least it to below it.
  abbrev pub Crosses : Sample Num → Sample Num → Direction → Type 0
  Crosses previous current call_credit =
      (le previous.premium previous.vwap ≡ true)
      × (lt current.vwap current.premium ≡ true)
      × (lt previous.premium current.premium ≡ true)
  Crosses previous current put_credit =
      (le previous.vwap previous.premium ≡ true)
      × (lt current.premium current.vwap ≡ true)
      × (lt current.premium previous.premium ≡ true)

  -- A sample of the window before the current one.
  pub record InWindow (current s : Sample Num) : Type 0 where
    pub earlier : s.t < current.t
    pub within : current.t ≤ s.t + window_ms
    pub positive : le s.premium (of_nat 0) ≡ false
    pub number : finite s.premium ≡ true

  -- No premium of the window is lower than the reference of a rise, or higher than that of a fall.
  abbrev pub Extreme : Direction → Sample Num → Sample Num → Type 0
  Extreme call_credit r s = lt s.premium r.premium ≡ false
  Extreme put_credit r s = lt r.premium s.premium ≡ false

  pub record IsExtreme (d : Direction) (current : Sample Num) (history : List (Sample Num))
      (r : Sample Num) : Type 0 where
    pub among : Memᴰ r history
    pub inside : InWindow current r
    pub extreme : All (λ s. InWindow current s → Extreme d r s) history

  -- The move from the reference in per cent.
  abbrev pub percent : Sample Num → Sample Num → Num
  percent current r = mul (sub (div current.premium r.premium) (of_nat 1)) (of_nat 100)

  abbrev pub Moves : Direction → Num → Type 0
  Moves call_credit move = lt (add move nano) (minimum_move_pct fl) ≡ false
  Moves put_credit move = lt (neg (minimum_move_pct fl)) (sub move nano) ≡ false

  abbrev pub Stays : Direction → Num → Type 0
  Stays call_credit move = lt (add move nano) (minimum_move_pct fl) ≡ true
  Stays put_credit move = lt (neg (minimum_move_pct fl)) (sub move nano) ≡ true

  abbrev pub Tells : Sample Num → Sample Num → Signal Num → Type 0
  Tells current r signal =
      (signal.t ≡ current.t)
      × (signal.premium ≡ current.premium)
      × (signal.vwap ≡ current.vwap)
      × (signal.reference ≡ r.premium)
      × (signal.reference_at ≡ r.t)
      × (signal.move_pct ≡ percent current r)

  -- What there is when there is a signal, and when there is none.
  abbrev pub Warranted : Sample Num → Sample Num → List (Sample Num) → Option (Signal Num) → Type 0
  Warranted previous current history (some signal) =
      IsPair previous current
      × Crosses previous current signal.direction
      × ((r : Sample Num) × IsExtreme signal.direction current history r
          × Moves signal.direction (percent current r)
          × Tells current r signal)
  Warranted previous current history none =
      (d : Direction)
      → IsPair previous current
      → Crosses previous current d
      → All (λ s. InWindow current s → ⊥) history
        ⊎ ((r : Sample Num) × IsExtreme d current history r × Stays d (percent current r))

  comparable-IsPair :
      (previous current : Sample Num)
      → comparable fl previous current ≡ true
      → IsPair previous current
  unfolding comparable
  comparable-IsPair previous current h = record {
    started = ground (arith, h);
    in_order = ground (arith, h);
    recent = ground (arith, h);
    old_vwap = ground (arith, h);
    new_vwap = ground (arith, h);
    premium_finite = ground (arith, h);
    vwap_finite = ground (arith, h);
  }

  IsPair-comparable :
      (previous current : Sample Num)
      → IsPair previous current
      → comparable fl previous current ≡ true
  unfolding comparable
  IsPair-comparable previous current p = ground (
    arith, p.started, p.in_order, p.recent, p.old_vwap, p.new_vwap, p.premium_finite, p.vwap_finite,
  )

  crossing-Crosses :
      (previous current : Sample Num) (d : Direction)
      → crossing fl previous current ≡ some d
      → Crosses previous current d
  unfolding crossing
  crossing-Crosses previous current call_credit h =
      (ground (arith, h), ground (arith, h), ground (arith, h))
  crossing-Crosses previous current put_credit h =
      (ground (arith, h), ground (arith, h), ground (arith, h))

  Crosses-crossing :
      (previous current : Sample Num) (d : Direction)
      → Crosses previous current d
      → crossing fl previous current ≡ some d
  unfolding crossing
  Crosses-crossing previous current call_credit h = ground (arith, h.0, h.1, h.2)
  Crosses-crossing previous current put_credit h = ground (
    arith,
    h.0,
    h.1,
    h.2,
    fl.lt_le current.premium previous.premium,
    fl.lt_le previous.premium current.premium,
  )

  eligible-InWindow : (current s : Sample Num) → eligible fl current s ≡ true → InWindow current s
  unfolding eligible
  eligible-InWindow current s h = record {
    earlier = ground (arith, h);
    within = ground (arith, h);
    positive = ground (arith, h);
    number = ground (arith, h);
  }

  InWindow-eligible : (current s : Sample Num) → InWindow current s → eligible fl current s ≡ true
  unfolding eligible
  InWindow-eligible current s w = ground (arith, w.earlier, w.within, w.positive, w.number)

  improves-Extreme : (d : Direction) (r s : Sample Num) → improves fl d s r ≡ false → Extreme d r s
  improves-Extreme call_credit r s h = h
  improves-Extreme put_credit r s h = h

  best-Extreme :
      (d : Direction) (current r : Sample Num) (ss : List (Sample Num))
      → All (λ s. eligible fl current s ≡ true → improves fl d s r ≡ false) ss
      → All (λ s. InWindow current s → Extreme d r s) ss
  best-Extreme d current r [] h = tt
  best-Extreme d current r (s ∷ ss) h = (
    λ w. improves-Extreme d r s (h.0 (InWindow-eligible current s w)),
    best-Extreme d current r ss h.1,
  )

  IsReference-IsExtreme :
      (d : Direction) (current : Sample Num) (history : List (Sample Num)) (r : Sample Num)
      → IsReference fl d current history r
      → IsExtreme d current history r
  IsReference-IsExtreme d current history r v = record {
    among = v.among;
    inside = eligible-InWindow current r v.able;
    extreme = best-Extreme d current r history v.best;
  }

  none-outside :
      (current : Sample Num) (ss : List (Sample Num))
      → NoneAble fl current ss
      → All (λ s. InWindow current s → ⊥) ss
  none-outside current [] h = tt
  none-outside current (s ∷ ss) h =
      (λ w. ground (arith, InWindow-eligible current s w, h.0), none-outside current ss h.1)

  too_small-Stays : (d : Direction) (move : Num) → too_small fl d move ≡ true → Stays d move
  too_small-Stays call_credit move h = h
  too_small-Stays put_credit move h = h

  too_small-Moves : (d : Direction) (move : Num) → too_small fl d move ≡ false → Moves d move
  too_small-Moves call_credit move h = h
  too_small-Moves put_credit move h = h

  qualify-crossing :
      (previous current : Sample Num) (history : List (Sample Num)) (d : Direction)
      → comparable fl previous current ≡ true
      → crossing fl previous current ≡ some d
      → Warranted previous current history (qualify fl previous current history)
  unfolding qualify
  qualify-crossing previous current history d pair crossed =
      let goal : Option (Signal Num) → Type 0 = Warranted previous current history in
      let same : (x : Direction) → Crosses previous current x → d ≡ x =
        λ x c. ground (arith, crossed, Crosses-crossing previous current x c) in
      elim (scan_none fl d current history) [
        | inl (nothing, outside) ↦
            subst goal {x = none} (ground (arith, pair, crossed, nothing))
              (λ x p c. inl (none-outside current history outside))
        | inr (r, found, v) ↦
            let extreme = IsReference-IsExtreme d current history r v in
            elim (Bool-cases (too_small fl d (move_of fl current r))) [
              | inl small ↦
                  subst goal {x = none} (ground (arith, pair, crossed, found, small)) (λ x p c.
                    subst
                      (λ (y : Direction).
                        All (λ s. InWindow current s → ⊥) history
                        ⊎ ((q : Sample Num) × IsExtreme y current history q
                            × Stays y (percent current q)))
                      (same x c) (inr (r, extreme, too_small-Stays d (move_of fl current r) small)))
              | inr large ↦
                  subst goal {x = some (signal_of fl d current r)}
                    (ground (arith, pair, crossed, found, large))
                    (
                      comparable-IsPair previous current pair,
                      crossing-Crosses previous current d crossed,
                      (
                        r,
                        extreme,
                        too_small-Moves d (move_of fl current r) large,
                        (refl, refl, refl, refl, refl, refl),
                      ),
                    )
            ]
      ]

  -- There is a signal only if the two samples are a pair that crosses the average price in its direction
  -- and the premium has moved enough from a lowest (for a rise) or a highest (for a fall) sample of the
  -- window, which the signal tells with the move and the current sample; and there is none only if the
  -- samples are no such pair, or do not cross, or no sample is in the window, or the move from such a
  -- sample is too small.
  pub qualify-Warranted :
      (previous current : Sample Num) (history : List (Sample Num))
      → Warranted previous current history (qualify fl previous current history)
  unfolding qualify
  qualify-Warranted previous current history =
      let goal : Option (Signal Num) → Type 0 = Warranted previous current history in
      elim (Bool-cases (comparable fl previous current)) [
        | inr no_pair ↦
            subst goal {x = none} (ground (arith, no_pair))
              (λ d p c. absurd (ground (arith, no_pair, IsPair-comparable previous current p)))
        | inl pair ↦ elim (Option-cases (crossing fl previous current)) [
          | inl flat ↦
              subst goal {x = none} (ground (arith, pair, flat))
                (λ d p c. absurd (ground (arith, flat, Crosses-crossing previous current d c)))
          | inr (d, crossed) ↦ qualify-crossing previous current history d pair crossed
        ]
      ]
