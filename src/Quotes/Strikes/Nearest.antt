-- ===== src/Quotes/Strikes/Nearest.antt =====
-- `AtmStrike` of internal/quotes/strikes.go finds a nearest strike.
use cal_spread_backend.Base.{
  ◌≡◌, inl, inr, Bool, true, false, some, List, [], ◌∷◌, All, if◌then◌else◌, Bool-cases, arith,
  subst,
}
use cal_spread_backend.Base.Float.{Float64, lt_trans}
use cal_spread_backend.Quotes.{insert, sort_stable}
use cal_spread_backend.Quotes.Strikes.{
  distance, nearest_from, nearest_of, atm_strike, ahead, sorted,
}

module _ {A : Type 0} where
  from_insert-All :
      (P : A → Type 0) (before : A → A → Bool) (x : A) (xs : List A)
      → All P (insert before x xs)
      → P x × All P xs
  unfolding insert
  from_insert-All P before x [] h = h
  from_insert-All P before x (y ∷ ys) h = elim (Bool-cases (before y x)) [
    | inl first ↦
        let h' : All P (y ∷ insert before x ys) =
          subst (λ b. All P (if b then y ∷ insert before x ys else x ∷ y ∷ ys)) first h in
        let rest = from_insert-All P before x ys h'.1 in (rest.0, (h'.0, rest.1))
    | inr last ↦ subst (λ b. All P (if b then y ∷ insert before x ys else x ∷ y ∷ ys)) last h
  ]

  from_sort-All :
      (P : A → Type 0) (before : A → A → Bool) (xs : List A)
      → All P (sort_stable before xs)
      → All P xs
  unfolding sort_stable
  from_sort-All P before [] h = tt
  from_sort-All P before (x ∷ xs) h =
      let rest = from_insert-All P before x (sort_stable before xs) h in
      (rest.0, from_sort-All P before xs rest.1)

module _ (fl : Float64) where
  open fl use {Num, lt}

  -- No nearer than the best.
  abbrev pub NoNearer : Num → Num → Num → Type 0
  NoNearer spot best s = lt (distance fl spot s) (distance fl spot best) ≡ false

  lt_irrefl : (a : Num) → lt a a ≡ false
  lt_irrefl a = ground (arith, fl.lt_le a a)

  nearer-NoNearer :
      (spot best s q : Num)
      → lt (distance fl spot s) (distance fl spot best) ≡ true
      → NoNearer spot best q
      → NoNearer spot s q
  nearer-NoNearer spot best s q h n =
      ground
        (arith, h, n, lt_trans fl (distance fl spot q) (distance fl spot s) (distance fl spot best))

  -- The scan ends no nearer than where it began for any strike that was no nearer.
  nearest_from_keeps :
      (spot best q : Num) (ss : List Num)
      → NoNearer spot best q
      → NoNearer spot (nearest_from fl spot best ss) q
  unfolding nearest_from
  nearest_from_keeps spot best q [] h = h
  nearest_from_keeps spot best q (s ∷ ss) h =
      elim (Bool-cases (lt (distance fl spot s) (distance fl spot best))) [
        | inl nearer ↦
            rw (nearer, nearest_from)
              (nearest_from_keeps spot s q ss (nearer-NoNearer spot best s q nearer h))
        | inr same ↦ rw (same, nearest_from) (nearest_from_keeps spot best q ss h)
      ]

  nearest_from-All :
      (spot best : Num) (ss : List Num) → All (NoNearer spot (nearest_from fl spot best ss)) ss
  unfolding nearest_from
  nearest_from-All spot best [] = tt
  nearest_from-All spot best (s ∷ ss) =
      elim (Bool-cases (lt (distance fl spot s) (distance fl spot best))) [
        | inl nearer ↦
            subst (λ (b : Num). All (NoNearer spot b) (s ∷ ss)) {x = nearest_from fl spot s ss}
              {y = nearest_from fl spot best (s ∷ ss)} (ground (arith, nearer))
              (
                nearest_from_keeps spot s s ss (lt_irrefl (distance fl spot s)),
                nearest_from-All spot s ss,
              )
        | inr same ↦
            subst (λ (b : Num). All (NoNearer spot b) (s ∷ ss)) {x = nearest_from fl spot best ss}
              {y = nearest_from fl spot best (s ∷ ss)} (ground (arith, same))
              (nearest_from_keeps spot best s ss same, nearest_from-All spot best ss)
      ]

  nearest_of-All :
      (spot best : Num) (ss : List Num)
      → nearest_of fl spot ss ≡ some best
      → All (NoNearer spot best) ss
  nearest_of-All spot best [] h = tt
  nearest_of-All spot best (s ∷ ss) h =
      subst (λ (b : Num). All (NoNearer spot b) (s ∷ ss)) {x = nearest_from fl spot s (s ∷ ss)}
        {y = best} (ground (arith, h)) (nearest_from-All spot s (s ∷ ss))

  -- No strike of the chain is nearer to the spot than the one that `AtmStrike` returns.
  pub atm_strike_nearest :
      (strikes : List Num) (spot best : Num)
      → atm_strike fl strikes spot ≡ some best
      → All (NoNearer spot best) strikes
  unfolding atm_strike
  atm_strike_nearest strikes spot best h =
      from_sort-All (NoNearer spot best) (ahead fl) strikes
        (nearest_of-All spot best (sorted fl strikes) h)
