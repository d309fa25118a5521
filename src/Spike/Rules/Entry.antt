-- ===== src/Spike/Rules/Entry.antt =====
-- The entry rule, the hedge and the buckets of internal/spike.
use mathlib.Core.List.{Memᴰ}
use native.Mathlib.Nat.{mul-mod_left}
use cal_spread_backend.Base.{
  ℕ, ◌+◌, ◌-◌, ◌*◌, ◌/◌, ◌%◌, ◌≤◌, ◌<◌, ◌≡◌, refl, ap, ◌∙◌, ◌⊎◌, inl, inr, true, false, none, some,
  List, [], ◌∷◌, arith, All, Bool-cases, Option-cases,
}
use cal_spread_backend.Base.Float.{Float64, lt_trans}
use cal_spread_backend.Spike.Types.{Sample, Direction, call_credit, put_credit, hedge_steps}
use cal_spread_backend.Spike.Rules.{
  Instrument, Pair, Universe, bucket_end, get_elem?, position, short_of, options_of, hedge_for,
  eligible, improves, reference_from,
}

round_up :
    (x step : ℕ)
    → 0 < step
    → (x ≤ (x + step - 1) / step * step) × ((x + step - 1) / step * step < x + step)
round_up x step h = (grind arith, grind arith)

-- A bucket end is not before the time, less than a bucket after it, and a whole number of buckets
-- from midnight in India.
pub bucket_end_lem :
    (at minutes : ℕ)
    → 0 < minutes
    → (at ≤ bucket_end at minutes)
      × (bucket_end at minutes < at + minutes * 60000)
      × ((bucket_end at minutes + 330 * 60000) % (minutes * 60000) ≡ 0)
unfolding bucket_end
bucket_end_lem at minutes h =
    let step = minutes * 60000 in
    let (low, high) = round_up (at + 330 * 60000) step (omega arith) in
    let q = (at + 330 * 60000 + step - 1) / step in
    let whole : bucket_end at minutes + 330 * 60000 ≡ q * step = omega arith in
    (omega arith, omega arith, ap (λ n. n % step) whole ∙ mul-mod_left q step)

-- The indices of the short option and of its hedge.
abbrev Apart : Direction → ℕ → ℕ → Type 0
Apart call_credit i j = j ≡ i + hedge_steps
Apart put_credit i j = j + hedge_steps ≡ i

-- If there is a hedge, then the short option is the pair's own and stands in the list of its side, and
-- the hedge stands `hedge_steps` places above it for a call, or below it for a put.
hedge_for_lem :
    {Num : Type 0} (u : Universe Num) (p : Pair Num) (d : Direction) (short hedge : Instrument Num)
    → hedge_for u p d ≡ some (short, hedge)
    → (short ≡ short_of d p)
      × ((i : ℕ) × (j : ℕ) × (position short.instrument_token (options_of d u) ≡ some i)
          × (get_elem? (options_of d u) j ≡ some hedge)
          × Apart d i j)
unfolding hedge_for
hedge_for_lem u p call_credit short hedge h =
    elim (Option-cases (position p.ce.instrument_token u.calls)) [
      | inl e ↦ absurd (ground (arith, e))
      | inr (i, e) ↦
          (ground (arith, e), (i, i + hedge_steps, ground (arith, e), ground (arith, e), refl))
    ]
hedge_for_lem u p put_credit short hedge h =
    elim (Option-cases (position p.pe.instrument_token u.puts)) [
      | inl e ↦ absurd (ground (arith, e))
      | inr (i, e) ↦ (
        ground (arith, e),
        (i, i - hedge_steps, ground (arith, e), ground (arith, e), ground (arith, e)),
      )
    ]

module _ (fl : Float64) where
  open fl use {Num, le, lt, finite}

  -- The reference so far is one of the samples seen, eligible, and not improved on by any.
  pub record IsReference (d : Direction) (current : Sample Num) (seen : List (Sample Num))
      (r : Sample Num) : Type 0 where
    pub among : Memᴰ r seen
    pub able : eligible fl current r ≡ true
    pub best : All (λ s. eligible fl current s ≡ true → improves fl d s r ≡ false) seen

  improves_trans :
      (d : Direction) (s r q : Sample Num)
      → improves fl d r q ≡ true
      → improves fl d s q ≡ false
      → improves fl d s r ≡ false
  improves_trans call_credit s r q p h = ground (arith, lt_trans fl s.premium r.premium q.premium)
  improves_trans put_credit s r q p h = ground (arith, lt_trans fl q.premium r.premium s.premium)

  improves_irrefl : (d : Direction) (s : Sample Num) → improves fl d s s ≡ false
  improves_irrefl call_credit s = ground (arith, fl.lt_le s.premium s.premium)
  improves_irrefl put_credit s = ground (arith, fl.lt_le s.premium s.premium)

  abbrev Best : Direction → Sample Num → List (Sample Num) → Sample Num → Type 0
  Best d current ss r = All (λ s. eligible fl current s ≡ true → improves fl d s r ≡ false) ss

  -- With a reference already, the loop ends with it or with a later eligible sample, and no eligible
  -- sample improves on the result.
  record Scanned (d : Direction) (current : Sample Num) (q : Sample Num) (ss : List (Sample Num))
      (r : Sample Num) : Type 0 where
    from : (r ≡ q) ⊎ Memᴰ r ss
    able : eligible fl current q ≡ true → eligible fl current r ≡ true
    keeps : (s : Sample Num) → improves fl d s q ≡ false → improves fl d s r ≡ false
    best : Best d current ss r

  scan_some :
      (d : Direction) (current q : Sample Num) (ss : List (Sample Num))
      → (r : Sample Num) × (reference_from fl d current (some q) ss ≡ some r)
        × Scanned d current q ss r
  unfolding reference_from
  scan_some d current q [] =
      (q, refl, record { from = inl refl; able = λ h. h; keeps = λ s h. h; best = tt })
  scan_some d current q (s ∷ ss) = elim (Bool-cases (eligible fl current s)) [
    | inr not_able ↦
        let (r, e, v) = scan_some d current q ss in
        (
          r,
          rw (not_able, reference_from) e,
          record {
            from = elim v.from [ inl p ↦ inl p | inr m ↦ inr (Memᴰ.tail m) ];
            able = v.able;
            keeps = v.keeps;
            best = (λ h. absurd (ground arith), v.best);
          },
        )
    | inl able ↦ elim (Bool-cases (improves fl d s q)) [
      | inl better ↦
          let (r, e, v) = scan_some d current s ss in
          (
            r,
            ground (arith, able, better, e),
            record {
              from = elim v.from [ inl p ↦ inr (Memᴰ.head p) | inr m ↦ inr (Memᴰ.tail m) ];
              able = λ _. v.able able;
              keeps = λ x h. v.keeps x (improves_trans d x s q better h);
              best = (λ _. v.keeps s (improves_irrefl d s), v.best);
            },
          )
      | inr worse ↦
          let (r, e, v) = scan_some d current q ss in
          (
            r,
            ground (arith, able, worse, e),
            record {
              from = elim v.from [ inl p ↦ inl p | inr m ↦ inr (Memᴰ.tail m) ];
              able = v.able;
              keeps = v.keeps;
              best = (λ _. v.keeps s worse, v.best);
            },
          )
    ]
  ]

  abbrev pub NoneAble : Sample Num → List (Sample Num) → Type 0
  NoneAble current = All (λ s. eligible fl current s ≡ false)

  pub scan_none :
      (d : Direction) (current : Sample Num) (ss : List (Sample Num))
      → ((reference_from fl d current none ss ≡ none) × NoneAble current ss)
        ⊎ ((r : Sample Num) × (reference_from fl d current none ss ≡ some r)
            × IsReference d current ss r)
  unfolding reference_from
  scan_none d current [] = inl (refl, tt)
  scan_none d current (s ∷ ss) = elim (Bool-cases (eligible fl current s)) [
    | inl able ↦
        let (r, e, v) = scan_some d current s ss in
        inr (
          r,
          ground (arith, able, e),
          record {
            among = elim v.from [ inl p ↦ Memᴰ.head p | inr m ↦ Memᴰ.tail m ];
            able = v.able able;
            best = (λ _. v.keeps s (improves_irrefl d s), v.best);
          },
        )
    | inr not_able ↦ elim (scan_none d current ss) [
      | inl (e, n) ↦ inl (ground (arith, not_able, e), (not_able, n))
      | inr (r, e, v) ↦ inr (
        r,
        ground (arith, not_able, e),
        record {
          among = Memᴰ.tail v.among;
          able = v.able;
          best = (λ h. absurd (ground arith), v.best);
        },
      )
    ]
  ]
