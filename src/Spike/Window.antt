-- ===== src/Spike/Window.antt =====
-- internal/spike/window.go: the monotonic queues of the rolling extrema. A slice is a list, front
-- first.
pub mod Survivors
pub mod Extrema
pub mod Rolling
use cal_spread_backend.Base.{ℕ, ◌-◌, Bool, true, false, List, [], ◌∷◌, ◌++◌, ltb, if◌then◌else◌}
use cal_spread_backend.Base.Float.{Float64}
use cal_spread_backend.Spike.Types.{Sample, window_ms}

module _ {A : Type 0} where
  -- The loop that drops elements from the back while the test holds.
  unfoldable pub trim_back : (A → Bool) → List A → List A
  trim_back p [] = []
  trim_back p (x ∷ xs) = elim (trim_back p xs) [
    | [] ↦ if p x then [] else x ∷ []
    | y ∷ ys ↦ x ∷ y ∷ ys
  ]

  -- The loop that drops elements from the front while the test holds.
  unfoldable pub trim_front : (A → Bool) → List A → List A
  trim_front p [] = []
  trim_front p (x ∷ xs) = if p x then trim_front p xs else x ∷ xs

  abbrev pub first : List A → List A
  first [] = []
  first (x ∷ xs) = x ∷ []

pub record PriceWindow (Num : Type 0) : Type 0 where
  pub low : List (Sample Num)
  pub high : List (Sample Num)

module _ (fl : Float64) where
  open fl use {Num, le}

  -- `now - t > WindowMs`; with a time after `now` both this and the source's signed test fail.
  abbrev pub expired : ℕ → Sample Num → Bool
  expired now s = ltb window_ms (now - s.t)

  unfoldable pub references : ℕ → PriceWindow Num → PriceWindow Num × List (Sample Num)
  unfolding trim_front
  references now w =
      let low = trim_front (expired now) w.low in
      let high = trim_front (expired now) w.high in
      (record { low = low; high = high }, first low ++ first high)

  unfoldable pub add_sample : Sample Num → PriceWindow Num → PriceWindow Num
  unfolding trim_back references
  add_sample s w =
      let low = trim_back (λ x. le s.premium x.premium) w.low ++ s ∷ [] in
      let high = trim_back (λ x. le x.premium s.premium) w.high ++ s ∷ [] in
      (references s.t (record { low = low; high = high })).0
