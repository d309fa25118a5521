-- ===== src/Quotes/Kept.antt =====
-- What internal/quotes/quotes.go keeps of a ladder, against a description of a book of at most five levels.
use mathlib.Core.List.{Perm}
use mathlib.Core.List.Perm
use cal_spread_backend.Base.{
  ℕ, zero, suc, ◌+◌, ◌≤◌, ◌≡◌, refl, ap, sym, subst, ◌⊎◌, inl, inr, Bool, true, false, List, [],
  ◌∷◌, ◌++◌, if◌then◌else◌, length, arith, Bool-cases,
}
use cal_spread_backend.Base.Filter.{Chain}
use cal_spread_backend.Base.Float.{Float64}
use cal_spread_backend.Spike.Quote.{DepthLevel}
use cal_spread_backend.Quotes.{
  insert, sort_stable, take, MathLib, usable_level, cleaned, valid_levels, better, sanitize,
}
use cal_spread_backend.Quotes.Sanitize.{
  IsUsable, valid_levels-IsUsable, better_asym, not_better_trans, sort-Chain,
}

module _ {A : Type 0} where
  drop : ℕ → List A → List A
  drop zero xs = xs
  drop (suc n) [] = []
  drop (suc n) (x ∷ xs) = drop n xs

  take-drop : (n : ℕ) (xs : List A) → take n xs ++ drop n xs ≡ xs
  unfolding drop
  take-drop zero xs = refl
  take-drop (suc n) [] = refl
  take-drop (suc n) (x ∷ xs) = ap (◌∷◌ x) (take-drop n xs)

  length-take : (n : ℕ) (xs : List A) → length (take n xs) ≤ n
  length-take zero xs = omega arith
  length-take (suc n) [] = omega arith
  length-take (suc n) (x ∷ xs) = omega (arith, length-take n xs)

  full_take : (n : ℕ) (xs : List A) → (drop n xs ≡ []) ⊎ (length (take n xs) ≡ n)
  unfolding drop
  full_take zero xs = inr refl
  full_take (suc n) [] = inl refl
  full_take (suc n) (x ∷ xs) = elim (full_take n xs) [ inl e ↦ inl e | inr e ↦ inr (ap suc e) ]

  insert-perm : (before : A → A → Bool) (x : A) (xs : List A) → Perm (insert before x xs) (x ∷ xs)
  unfolding insert
  insert-perm before x [] = Perm.rfl
  insert-perm before x (y ∷ ys) =
      elim (before y x)
        as (λ b. Perm (if b then y ∷ insert before x ys else x ∷ y ∷ ys) (x ∷ y ∷ ys)) [
          | true ↦ Perm.trans (Perm.cons y (insert-perm before x ys)) (Perm.swap x y ys)
          | false ↦ Perm.rfl
        ]

  sort-perm : (before : A → A → Bool) (xs : List A) → Perm (sort_stable before xs) xs
  unfolding sort_stable
  sort-perm before [] = Perm.rfl
  sort-perm before (x ∷ xs) =
      Perm.trans (insert-perm before x (sort_stable before xs)) (Perm.cons x (sort-perm before xs))

module _ (fl : Float64) (math : MathLib fl) where
  open fl use {Num, le, lt, finite, of_nat}

  -- A positive finite price, and a positive safe integer as the quantity.
  pub record IsGood (l : DepthLevel Num) : Type 0 where
    pub price_finite : finite l.price ≡ true
    pub price_positive : le l.price (of_nat 0) ≡ false
    pub qty_finite : finite l.qty ≡ true
    pub qty_whole : math.safe_integer l.qty ≡ true
    pub qty_positive : le l.qty (of_nat 0) ≡ false

  -- The level as it is kept: a number of orders that is none is taken as zero.
  pub record IsCopy (l v : DepthLevel Num) : Type 0 where
    pub same_price : v.price ≡ l.price
    pub same_qty : v.qty ≡ l.qty
    pub counted :
        ((finite l.orders ≡ true)
          × (le (of_nat 0) l.orders ≡ true)
          × (v.orders ≡ math.floor l.orders))
        ⊎ (((finite l.orders ≡ false) ⊎ (le (of_nat 0) l.orders ≡ false)) × (v.orders ≡ of_nat 0))

  -- The copies of the good levels, in their order.
  pub data Selects : List (DepthLevel Num) → List (DepthLevel Num) → Type 0 where
    none_left : Selects [] []
    selected :
        {l v : DepthLevel Num} {ls vs : List (DepthLevel Num)}
        → IsGood l
        → IsCopy l v
        → Selects ls vs
        → Selects (l ∷ ls) (v ∷ vs)
    left_out :
        {l : DepthLevel Num} {ls vs : List (DepthLevel Num)}
        → (IsGood l → ⊥)
        → Selects ls vs
        → Selects (l ∷ ls) vs

  -- Of bids the later one is not higher, of asks it is not lower.
  abbrev pub NotBetter : Bool → DepthLevel Num → DepthLevel Num → Type 0
  NotBetter true a b = lt a.price b.price ≡ false
  NotBetter false a b = lt b.price a.price ≡ false

  usable-IsGood : (l : DepthLevel Num) → usable_level fl math l ≡ true → IsGood l
  unfolding usable_level
  usable-IsGood l h = record {
    price_finite = ground (arith, h);
    price_positive = ground (arith, h);
    qty_finite = ground (arith, h);
    qty_whole = ground (arith, h);
    qty_positive = ground (arith, h);
  }

  unusable_lem : (l : DepthLevel Num) → usable_level fl math l ≡ false → IsGood l → ⊥
  unfolding usable_level
  unusable_lem l h g =
      ground (arith, h, g.price_finite, g.price_positive, g.qty_finite, g.qty_whole, g.qty_positive)

  cleaned-IsCopy : (l : DepthLevel Num) → IsCopy l (cleaned fl math l)
  cleaned-IsCopy l = record { same_price = refl; same_qty = refl; counted = ground arith }

  valid_levels-Selects :
      (ls : List (DepthLevel Num))
      → Selects ls (valid_levels fl math ls).0
        × (length (valid_levels fl math ls).0 + (valid_levels fl math ls).1 ≡ length ls)
  unfolding valid_levels
  valid_levels-Selects [] = (none_left, refl)
  valid_levels-Selects (l ∷ ls) =
      let rest = valid_levels-Selects ls in
      elim (Bool-cases (usable_level fl math l)) [
        | inl good ↦ (
          subst (Selects (l ∷ ls)) {x = cleaned fl math l ∷ (valid_levels fl math ls).0}
              (ground (arith, good)) (selected (usable-IsGood l good) (cleaned-IsCopy l) rest.0),
          ground (arith, good, rest.1),
        )
        | inr bad ↦ (
          subst (Selects (l ∷ ls)) {x = (valid_levels fl math ls).0} (ground (arith, bad))
              (left_out (unusable_lem l bad) rest.0),
          ground (arith, bad, rest.1),
        )
      ]

  Chain-NotBetter :
      (is_bid : Bool) (ls : List (DepthLevel Num))
      → Chain (λ a b. better fl math is_bid b a ≡ false) ls
      → Chain (NotBetter is_bid) ls
  Chain-NotBetter true ls h = h
  Chain-NotBetter false ls h = h

  -- For any ladder there are the copies of its good levels and a list of levels that are not kept, such
  -- that what is kept together with what is not is those copies in another order, no level of it is better
  -- than an earlier one (higher for bids, lower for asks), at most five levels are kept, and five if any is
  -- left out; and the other levels of the ladder are counted as dropped.
  pub sanitize_lem :
      (ls : List (DepthLevel Num)) (is_bid : Bool)
      → (good : List (DepthLevel Num)) × (cut : List (DepthLevel Num)) × Selects ls good
        × Perm ((sanitize fl math ls is_bid).0 ++ cut) good
        × Chain (NotBetter is_bid) ((sanitize fl math ls is_bid).0 ++ cut)
        × (length (sanitize fl math ls is_bid).0 ≤ 5)
        × ((cut ≡ []) ⊎ (length (sanitize fl math ls is_bid).0 ≡ 5))
        × (length good + (sanitize fl math ls is_bid).1 ≡ length ls)
  unfolding sanitize
  sanitize_lem ls is_bid =
      let valid = (valid_levels fl math ls).0 in
      let sorted = sort_stable (better fl math is_bid) valid in
      let chain = Chain-NotBetter is_bid sorted (
        sort-Chain (IsUsable fl math) (better fl math is_bid) valid (better_asym fl math is_bid)
          (not_better_trans fl math is_bid) (valid_levels-IsUsable fl math ls)) in
      let whole = sym (take-drop 5 sorted) in
      let chosen = valid_levels-Selects ls in
      (
        valid,
        drop 5 sorted,
        chosen.0,
        subst (λ x. Perm x valid) whole (sort-perm (better fl math is_bid) valid),
        subst (Chain (NotBetter is_bid)) whole chain,
        length-take 5 sorted,
        full_take 5 sorted,
        chosen.1,
      )
