-- ===== src/Spike/Window/Survivors.antt =====
-- What a monotonic queue of window.go keeps: the elements that go before all later ones, and the
-- extremum that a scan finds.
use cal_spread_backend.Base.{
  ◌≡◌, refl, ap, ◌∙◌, Bool, true, false, ◌&&◌, not, List, [], ◌∷◌, ◌++◌, if◌then◌else◌, arith, All,
  Bool-cases, inl, inr,
}
use cal_spread_backend.Base.Filter.{keep, Chain}
use cal_spread_backend.Spike.Window.{trim_back, first}

module _ {A : Type 0} where
  pub trim_back-cong :
      (p q : A → Bool) (xs : List A) → All (λ x. p x ≡ q x) xs → trim_back p xs ≡ trim_back q xs
  unfolding trim_back
  trim_back-cong p q [] h = refl
  trim_back-cong p q (x ∷ xs) h = ground (arith, trim_back-cong p q xs h.1)

module _ {A : Type 0} (before : A → A → Bool) where
  abbrev pub Goes : A → A → Type 0
  Goes x y = before x y ≡ true

  unfoldable pub all_after : A → List A → Bool
  all_after x [] = true
  all_after x (y ∷ ys) = before x y && all_after x ys

  unfoldable pub survivors : List A → List A
  unfolding all_after
  survivors [] = []
  survivors (x ∷ xs) = if all_after x xs then x ∷ survivors xs else survivors xs

  abbrev pub better : A → List A → List A
  better x [] = x ∷ []
  better x (m ∷ _) = if before x m then x ∷ [] else m ∷ []

  -- The extremum, the newest of equal ones, by a scan.
  unfoldable pub extremum : List A → List A
  extremum [] = []
  extremum (x ∷ xs) = better x (extremum xs)

  all_after-snoc :
      (x s : A) (xs : List A) → all_after x (xs ++ s ∷ []) ≡ (all_after x xs && before x s)
  unfolding all_after
  all_after-snoc x s [] = ground arith
  all_after-snoc x s (y ∷ ys) = ground (arith, all_after-snoc x s ys)

  pub survivors-snoc :
      (xs : List A) (s : A)
      → survivors (xs ++ s ∷ []) ≡ keep (λ x. before x s) (survivors xs) ++ s ∷ []
  unfolding survivors keep
  survivors-snoc [] s = refl
  survivors-snoc (x ∷ xs) s = ground (arith, survivors-snoc xs s, all_after-snoc x s xs)

  pub survivors-All : (P : A → Type 0) (xs : List A) → All P xs → All P (survivors xs)
  unfolding survivors
  survivors-All P [] h = tt
  survivors-All P (x ∷ xs) h =
      elim (all_after x xs) as (λ b. All P (if b then x ∷ survivors xs else survivors xs)) [
        | true ↦ (h.0, survivors-All P xs h.1)
        | false ↦ survivors-All P xs h.1
      ]

  all_after-All : (x : A) (xs : List A) → all_after x xs ≡ true → All (Goes x) xs
  unfolding all_after
  all_after-All x [] h = tt
  all_after-All x (y ∷ ys) h = (ground arith, all_after-All x ys (ground arith))

  pub survivors-Chain : (xs : List A) → Chain Goes (survivors xs)
  unfolding survivors
  survivors-Chain [] = tt
  survivors-Chain (x ∷ xs) = elim (Bool-cases (all_after x xs)) [
    | inl e ↦ rw e (survivors-All (Goes x) xs (all_after-All x xs e), survivors-Chain xs)
    | inr e ↦ rw e (survivors-Chain xs)
  ]

  keep_none :
      (p : A → Bool) (x : A) (xs : List A)
      → ((x y : A) → before x y ≡ true → p x ≡ true → p y ≡ true)
      → All (Goes x) xs
      → p x ≡ true
      → keep (λ y. not (p y)) xs ≡ []
  unfolding keep
  keep_none p x [] mono h e = refl
  keep_none p x (y ∷ ys) mono h e = ground (arith, mono x y, keep_none p x ys mono h.1 e)

  -- On a chain, dropping from the back is filtering.
  pub trim_back-keep :
      (p : A → Bool) (xs : List A)
      → ((x y : A) → before x y ≡ true → p x ≡ true → p y ≡ true)
      → Chain Goes xs
      → trim_back p xs ≡ keep (λ x. not (p x)) xs
  unfolding trim_back keep
  trim_back-keep p [] mono c = refl
  trim_back-keep p (x ∷ xs) mono c =
      ground (arith, trim_back-keep p xs mono c.1, keep_none p x xs mono c.0)

  -- The first survivor is the extremum, where the order is that of a comparison of good values.
  module _ (Good : A → Type 0)
      (trans : (x y z : A) → before x y ≡ true → before y z ≡ true → before x z ≡ true)
      (not_trans : (x y z : A)
        → Good x
        → Good y
        → Good z
        → before x y ≡ false
        → before y z ≡ false
        → before x z ≡ false) where
    abbrev pub goes_before : A → List A → Bool
    goes_before x [] = true
    goes_before x (m ∷ _) = before x m

    pub extremum-All : (xs : List A) → All Good xs → All Good (extremum xs)
    unfolding extremum
    extremum-All [] h = tt
    extremum-All (x ∷ xs) h = ground (arith, extremum-All xs h.1)

    before-better :
        (x y : A) (e : List A)
        → Good x
        → Good y
        → All Good e
        → (before x y && goes_before x e) ≡ goes_before x (better y e)
    before-better x y [] g k h = ground arith
    before-better x y (m ∷ r) g k h = ground (arith, trans x y m, not_trans x y m g k h.0)

    all_after-extremum :
        (x : A) (xs : List A) → Good x → All Good xs → all_after x xs ≡ goes_before x (extremum xs)
    unfolding all_after extremum
    all_after-extremum x [] g h = refl
    all_after-extremum x (y ∷ ys) g h =
        ap (λ b. before x y && b) (all_after-extremum x ys g h.1)
        ∙ before-better x y (extremum ys) g h.0 (extremum-All ys h.1)

    pub first-survivors : (xs : List A) → All Good xs → first (survivors xs) ≡ extremum xs
    unfolding survivors extremum
    first-survivors [] h = refl
    first-survivors (x ∷ xs) h =
        ground (arith, first-survivors xs h.1, all_after-extremum x xs h.0 h.1)
