-- ===== src/Brokers/Subscriptions/Sets.antt =====
-- The token lists that stand for the sets of subscriptions.go.
use cal_spread_backend.Base.{
  ◌≡◌, refl, Bool, true, false, List, [], ◌∷◌, ◌++◌, ◌||◌, ◌&&◌, not, ite, if◌then◌else◌, mem,
  arith, ltb,
}
use cal_spread_backend.Base.Int.{ℤ, ℤ-discrete, is_nonpositive}
use cal_spread_backend.Base.Maps.{Map}
use cal_spread_backend.Brokers.Subscriptions.{
  Owner, Owner-discrete, Lease, LeaseId, join, minus, distinct_from, distinct_valid,
}
use cal_spread_backend.Brokers.Subscriptions.Counting.{Distinct}
use cal_spread_backend.Brokers.Subscriptions.Leases.{holding, gathered}

abbrev pub has : ℤ → List ℤ → Bool
has = mem ℤ-discrete

has-snoc :
    (t y : ℤ) (xs : List ℤ) → has t (xs ++ y ∷ []) ≡ (has t xs || ite (ℤ-discrete y t) true false)
unfolding mem
has-snoc t y [] = ground arith
has-snoc t y (x ∷ xs) = ground (arith, has-snoc t y xs)

Distinct-snoc : (y : ℤ) (xs : List ℤ) → Distinct xs → has y xs ≡ false → Distinct (xs ++ y ∷ [])
unfolding mem
Distinct-snoc y [] d h = (refl, tt)
Distinct-snoc y (x ∷ xs) d h = ground (arith, Distinct-snoc y xs d.1, has-snoc x y xs)

has-join : (t : ℤ) (held ts : List ℤ) → has t (join held ts) ≡ (has t held || has t ts)
unfolding join mem
has-join t held [] = ground arith
has-join t held (x ∷ xs) =
    let grown = if has x held then held else held ++ x ∷ [] in
    ground (arith, has-join t grown xs, has-snoc t x held)

join-Distinct : (held ts : List ℤ) → Distinct held → Distinct (join held ts)
unfolding join
join-Distinct held [] d = d
join-Distinct held (x ∷ xs) d =
    let grown = if has x held then held else held ++ x ∷ [] in
    let g : Distinct grown = ground (arith, Distinct-snoc x held d) in join-Distinct grown xs g

-- The gathered tokens are those held before and those of some lease of the owner.
pub has-gathered :
    (o : Owner) (t : ℤ) (held : List ℤ) (m : Map LeaseId Lease)
    → has t (gathered o held m) ≡ (has t held || ltb 0 (holding o t m))
unfolding gathered holding
has-gathered o t held [] = ground arith
has-gathered o t held ((i, l) ∷ m) = ground (
  arith,
  has-gathered o t held m,
  has-gathered o t (join held l.tokens) m,
  has-join t held l.tokens,
)

pub gathered-Distinct :
    (o : Owner) (held : List ℤ) (m : Map LeaseId Lease)
    → Distinct held
    → Distinct (gathered o held m)
unfolding gathered
gathered-Distinct o held [] d = d
gathered-Distinct o held ((i, l) ∷ m) d =
    elim (Owner-discrete l.owner o)
      as (λ x. Distinct (ite x (gathered o (join held l.tokens) m) (gathered o held m))) [
        | yes _ ↦ gathered-Distinct o (join held l.tokens) m (join-Distinct held l.tokens d)
        | no _ ↦ gathered-Distinct o held m d
      ]

pub has-minus : (t : ℤ) (xs ys : List ℤ) → has t (minus xs ys) ≡ (has t xs && not (has t ys))
unfolding minus mem
has-minus t [] ys = refl
has-minus t (x ∷ xs) ys = ground (arith, has-minus t xs ys)

pub minus-Distinct : (xs ys : List ℤ) → Distinct xs → Distinct (minus xs ys)
unfolding minus
minus-Distinct [] ys d = tt
minus-Distinct (x ∷ xs) ys d = ground (arith, minus-Distinct xs ys d.1, has-minus x xs ys)

has-distinct_from :
    (t : ℤ) (seen ts : List ℤ)
    → has t (distinct_from seen ts) ≡ (has t ts && not (is_nonpositive t) && not (has t seen))
unfolding distinct_from mem
has-distinct_from t seen [] = refl
has-distinct_from t seen (x ∷ xs) =
    ground (arith, has-distinct_from t seen xs, has-distinct_from t (x ∷ seen) xs)

distinct_from-Distinct : (seen ts : List ℤ) → Distinct (distinct_from seen ts)
unfolding distinct_from mem
distinct_from-Distinct seen [] = tt
distinct_from-Distinct seen (x ∷ xs) = ground (
  arith,
  distinct_from-Distinct seen xs,
  distinct_from-Distinct (x ∷ seen) xs,
  has-distinct_from x (x ∷ seen) xs,
)

-- `distinctValid` keeps exactly the positive tokens, each once.
pub distinct_valid_lem :
    (t : ℤ) (ts : List ℤ)
    → (has t (distinct_valid ts) ≡ (has t ts && not (is_nonpositive t)))
      × Distinct (distinct_valid ts)
unfolding distinct_valid mem
distinct_valid_lem t ts = (ground (arith, has-distinct_from t [] ts), distinct_from-Distinct [] ts)
