-- ===== src/Quotes/Sanitize.antt =====
-- What internal/quotes/quotes.go keeps of a ladder of depth levels.
use cal_spread_backend.Base.{
  ◌≡◌, Bool, true, false, List, [], ◌∷◌, if◌then◌else◌, All, arith, Bool-cases, inl, inr,
}
use cal_spread_backend.Base.Filter.{Chain}
use cal_spread_backend.Base.Float.{Float64, not_lt_trans}
use cal_spread_backend.Spike.Quote.{DepthLevel}
use cal_spread_backend.Quotes.{insert, sort_stable, MathLib, usable_level, valid_levels, better}

module _ {A : Type 0} where
  insert-All :
      (P : A → Type 0) (before : A → A → Bool) (x : A) (xs : List A)
      → P x
      → All P xs
      → All P (insert before x xs)
  unfolding insert
  insert-All P before x [] p h = (p, tt)
  insert-All P before x (y ∷ ys) p h =
      elim (before y x) as (λ b. All P (if b then y ∷ insert before x ys else x ∷ y ∷ ys)) [
        | true ↦ (h.0, insert-All P before x ys p h.1)
        | false ↦ (p, h)
      ]

  -- Elements that are not before y are not before an x that y is not before.
  behind-All :
      (P : A → Type 0) (before : A → A → Bool) (x y : A) (zs : List A)
      → ((a b c : A)
          → P a
          → P b
          → P c
          → before a b ≡ false
          → before b c ≡ false
          → before a c ≡ false)
      → before y x ≡ false
      → P x
      → P y
      → All P zs
      → All (λ z. before z y ≡ false) zs
      → All (λ z. before z x ≡ false) zs
  behind-All P before x y [] tr h px py ps ns = tt
  behind-All P before x y (z ∷ zs) tr h px py ps ns =
      (tr z y x ps.0 py px ns.0 h, behind-All P before x y zs tr h px py ps.1 ns.1)

  insert-Chain :
      (P : A → Type 0) (before : A → A → Bool) (x : A) (xs : List A)
      → ((a b : A) → before a b ≡ true → before b a ≡ false)
      → ((a b c : A)
          → P a
          → P b
          → P c
          → before a b ≡ false
          → before b c ≡ false
          → before a c ≡ false)
      → P x
      → All P xs
      → Chain (λ a b. before b a ≡ false) xs
      → Chain (λ a b. before b a ≡ false) (insert before x xs)
  unfolding insert
  insert-Chain P before x [] asy tr px ps c = (tt, tt)
  insert-Chain P before x (y ∷ ys) asy tr px ps c = elim (Bool-cases (before y x)) [
    | inl first ↦
        rw (first, insert)
          (
            insert-All (λ z. before z y ≡ false) before x ys (asy y x first) c.0,
            insert-Chain P before x ys asy tr px ps.1 c.1,
          )
    | inr last ↦ rw (last, insert) ((last, behind-All P before x y ys tr last px ps.0 ps.1 c.0), c)
  ]

  pub sort-All :
      (P : A → Type 0) (before : A → A → Bool) (xs : List A)
      → All P xs
      → All P (sort_stable before xs)
  unfolding sort_stable
  sort-All P before [] h = tt
  sort-All P before (x ∷ xs) h =
      insert-All P before x (sort_stable before xs) h.0 (sort-All P before xs h.1)

  pub sort-Chain :
      (P : A → Type 0) (before : A → A → Bool) (xs : List A)
      → ((a b : A) → before a b ≡ true → before b a ≡ false)
      → ((a b c : A)
          → P a
          → P b
          → P c
          → before a b ≡ false
          → before b c ≡ false
          → before a c ≡ false)
      → All P xs
      → Chain (λ a b. before b a ≡ false) (sort_stable before xs)
  unfolding sort_stable
  sort-Chain P before [] asy tr h = tt
  sort-Chain P before (x ∷ xs) asy tr h =
      insert-Chain P before x (sort_stable before xs) asy tr h.0 (sort-All P before xs h.1)
        (sort-Chain P before xs asy tr h.1)

module _ (fl : Float64) (math : MathLib fl) where
  open fl use {Num, le, lt, finite, of_nat}

  -- A level with a finite price and a positive, safe integer as its quantity.
  abbrev pub IsUsable : DepthLevel Num → Type 0
  IsUsable l = usable_level fl math l ≡ true

  pub valid_levels-IsUsable :
      (ls : List (DepthLevel Num)) → All IsUsable (valid_levels fl math ls).0
  unfolding valid_levels usable_level
  valid_levels-IsUsable [] = tt
  valid_levels-IsUsable (l ∷ ls) = ground (arith, valid_levels-IsUsable ls)

  pub better_asym :
      (is_bid : Bool) (a b : DepthLevel Num)
      → better fl math is_bid a b ≡ true
      → better fl math is_bid b a ≡ false
  better_asym true a b h = ground (arith, fl.lt_le b.price a.price, fl.lt_le a.price b.price)
  better_asym false a b h = ground (arith, fl.lt_le b.price a.price, fl.lt_le a.price b.price)

  usable-finite : (l : DepthLevel Num) → IsUsable l → finite l.price ≡ true
  unfolding usable_level
  usable-finite l h = ground (arith, h)

  pub not_better_trans :
      (is_bid : Bool) (a b c : DepthLevel Num)
      → IsUsable a
      → IsUsable b
      → IsUsable c
      → better fl math is_bid a b ≡ false
      → better fl math is_bid b c ≡ false
      → better fl math is_bid a c ≡ false
  not_better_trans true a b c p q r h k =
      not_lt_trans fl c.price b.price a.price (usable-finite c r) (usable-finite b q)
        (usable-finite a p) k h
  not_better_trans false a b c p q r h k =
      not_lt_trans fl a.price b.price c.price (usable-finite a p) (usable-finite b q)
        (usable-finite c r) h k
