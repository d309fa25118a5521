-- ===== src/Base/Milli.antt =====
-- Thousandths, with a NaN: a model of the interface of float64, for concrete runs.
use Prim.Native.Nat.{suc, ◌*◌}
use mathlib.Core.Path.{◌≡◌, refl}
use mathlib.Core.Bool.{Bool, true, false, ◌&&◌, not}
use mathlib.Core.Option.{Option, none, some}
use native.Mathlib.Omega.{arith}
use cal_spread_backend.Base.Int.{ℤ, pos, ◌+ℤ◌, ◌-ℤ◌, ◌*ℤ◌, div_ℕ, leb_ℤ}
use cal_spread_backend.Base.Float.{Float64}

abbrev pub milli_le : Option ℤ → Option ℤ → Bool
milli_le (some a) (some b) = leb_ℤ a b
milli_le _ _ = false

abbrev pub milli_op : (ℤ → ℤ → ℤ) → Option ℤ → Option ℤ → Option ℤ
milli_op f (some a) (some b) = some (f a b)
milli_op f _ _ = none

-- Only a positive divisor is used.
abbrev pub milli_div : Option ℤ → Option ℤ → Option ℤ
milli_div (some a) (some (pos (suc n))) = some (div_ℕ (a *ℤ pos 1000) (suc n))
milli_div _ _ = none

abbrev pub is_number : Option ℤ → Bool
is_number none = false
is_number (some a) = true

pub milli_trans :
    (a b c : Option ℤ) → milli_le a b ≡ true → milli_le b c ≡ true → milli_le a c ≡ true
milli_trans a b c p q = ground arith

pub milli_total :
    (a b : Option ℤ)
    → is_number a ≡ true
    → is_number b ≡ true
    → milli_le a b ≡ false
    → milli_le b a ≡ true
milli_total a b p q h = ground arith

abbrev pub milli : Float64
milli = record {
  Num = Option ℤ;
  le = milli_le;
  lt = λ a b. milli_le a b && not (milli_le b a);
  finite = is_number;
  add = milli_op (λ a b. a +ℤ b);
  sub = milli_op (λ a b. a -ℤ b);
  mul = milli_op (λ a b. div_ℕ (a *ℤ b) 1000);
  div = milli_div;
  neg = milli_op (λ a b. a -ℤ b) (some (pos 0));
  of_nat = λ n. some (pos (n * 1000));
  nano = some (pos 0);
  le_trans = milli_trans;
  le_total = milli_total;
  lt_le = λ a b. refl;
}
