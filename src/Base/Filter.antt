-- ===== src/Base/Filter.antt =====
-- Filtering by a Boolean test, and lists ordered by a Boolean relation.
use mathlib.Core.Path.{◌≡◌, refl}
use mathlib.Core.Bool.{Bool, true, false}
use mathlib.Core.List.{List, [], ◌∷◌, ◌++◌}
use native.Mathlib.Omega.{arith}
use cal_spread_backend.Base.Tests.{if◌then◌else◌}
use cal_spread_backend.Base.Lists.{All}

module _ {A : Type 0} where
  unfoldable pub keep : (A → Bool) → List A → List A
  keep p [] = []
  keep p (x ∷ xs) = if p x then x ∷ keep p xs else keep p xs

  pub keep-append : (p : A → Bool) (xs ys : List A) → keep p (xs ++ ys) ≡ keep p xs ++ keep p ys
  unfolding keep
  keep-append p [] ys = refl
  keep-append p (x ∷ xs) ys = ground (arith, keep-append p xs ys)

  pub keep_comm : (p q : A → Bool) (xs : List A) → keep p (keep q xs) ≡ keep q (keep p xs)
  unfolding keep
  keep_comm p q [] = refl
  keep_comm p q (x ∷ xs) = ground (arith, keep_comm p q xs)

  -- A test that implies another makes it superfluous.
  pub keep_absorb :
      (p q : A → Bool) (xs : List A)
      → ((x : A) → p x ≡ true → q x ≡ true)
      → keep p (keep q xs) ≡ keep p xs
  unfolding keep
  keep_absorb p q [] h = refl
  keep_absorb p q (x ∷ xs) h = ground (arith, keep_absorb p q xs h, h x)

  pub keep_id : (p : A → Bool) (xs : List A) → All (λ x. p x ≡ true) xs → keep p xs ≡ xs
  unfolding keep
  keep_id p [] h = refl
  keep_id p (x ∷ xs) h = ground (arith, keep_id p xs h.1)

  pub keep-All : (P : A → Type 0) (p : A → Bool) (xs : List A) → All P xs → All P (keep p xs)
  unfolding keep
  keep-All P p [] h = tt
  keep-All P p (x ∷ xs) h = elim (p x) as (λ b. All P (if b then x ∷ keep p xs else keep p xs)) [
    | true ↦ (h.0, keep-All P p xs h.1)
    | false ↦ keep-All P p xs h.1
  ]

  pub All-imp : (P Q : A → Type 0) (xs : List A) → ((x : A) → P x → Q x) → All P xs → All Q xs
  All-imp P Q [] f h = tt
  All-imp P Q (x ∷ xs) f h = (f x h.0, All-imp P Q xs f h.1)

  pub append-All : (P : A → Type 0) (xs ys : List A) → All P xs → All P ys → All P (xs ++ ys)
  append-All P [] ys h k = k
  append-All P (x ∷ xs) ys h k = (h.0, append-All P xs ys h.1 k)

  -- Each element is related to all the later ones.
  abbrev pub Chain : (A → A → Type 0) → List A → Type 0
  Chain R [] = Unit {0}
  Chain R (x ∷ xs) = All (R x) xs × Chain R xs

  pub keep-Chain :
      (R : A → A → Type 0) (p : A → Bool) (xs : List A) → Chain R xs → Chain R (keep p xs)
  unfolding keep
  keep-Chain R p [] h = tt
  keep-Chain R p (x ∷ xs) h =
      elim (p x) as (λ b. Chain R (if b then x ∷ keep p xs else keep p xs)) [
        | true ↦ (keep-All (R x) p xs h.0, keep-Chain R p xs h.1)
        | false ↦ keep-Chain R p xs h.1
      ]

  pub snoc-Chain :
      (R : A → A → Type 0) (xs : List A) (y : A)
      → Chain R xs
      → All (λ x. R x y) xs
      → Chain R (xs ++ y ∷ [])
  snoc-Chain R [] y h k = (tt, tt)
  snoc-Chain R (x ∷ xs) y h k =
      (append-All (R x) xs (y ∷ []) h.0 (k.0, tt), snoc-Chain R xs y h.1 k.1)
