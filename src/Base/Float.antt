-- ===== src/Base/Float.antt =====
-- Go's float64, which the repository does not define: the operations that its code uses, with the
-- facts of IEEE 754 on comparisons that it relies on. A NaN compares false with everything.
use Prim.Native.Nat.{ℕ}
use mathlib.Core.Path.{◌≡◌}
use mathlib.Core.Bool.{Bool, true, false, ◌&&◌, not}
use native.Mathlib.Omega.{arith}

pub record Float64 : Type 1 where
  pub Num : Type 0
  -- The tests `a <= b` and `a < b`.
  pub le : Num → Num → Bool
  pub lt : Num → Num → Bool
  -- Neither a NaN nor an infinity.
  pub finite : Num → Bool
  pub add : Num → Num → Num
  pub sub : Num → Num → Num
  pub mul : Num → Num → Num
  pub div : Num → Num → Num
  pub neg : Num → Num
  -- `float64(n)`, and the constant 1e-9.
  pub of_nat : ℕ → Num
  pub nano : Num
  pub le_trans : (a b c : Num) → le a b ≡ true → le b c ≡ true → le a c ≡ true
  pub le_total : (a b : Num) → finite a ≡ true → finite b ≡ true → le a b ≡ false → le b a ≡ true
  pub lt_le : (a b : Num) → lt a b ≡ (le a b && not (le b a))

module _ (fl : Float64) where
  open fl use {Num, le, lt, finite, le_trans, le_total, lt_le}

  -- Of finite numbers `<` is the negation of `>=`.
  pub lt-not_le : (a b : Num) → finite a ≡ true → finite b ≡ true → lt a b ≡ not (le b a)
  lt-not_le a b p q = ground (arith, lt_le a b, le_total b a)

  pub lt_trans : (a b c : Num) → lt a b ≡ true → lt b c ≡ true → lt a c ≡ true
  lt_trans a b c p q =
      ground
        (arith, lt_le a b, lt_le b c, lt_le a c, le_trans a b c, le_trans c a b, le_trans b c a)

  pub not_lt_trans :
      (a b c : Num)
      → finite a ≡ true
      → finite b ≡ true
      → finite c ≡ true
      → lt a b ≡ false
      → lt b c ≡ false
      → lt a c ≡ false
  not_lt_trans a b c x y z p q =
      ground (arith, lt-not_le a b, lt-not_le b c, lt-not_le a c, le_trans c b a)
