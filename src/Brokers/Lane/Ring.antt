-- ===== src/Brokers/Lane/Ring.antt =====
-- The ring of internal/brokers/lane.go stays within its bounds.
use native.Mathlib.Nat.{mod-lt}
use cal_spread_backend.Base.{
  ℕ, zero, suc, ◌+◌, ◌/◌, ◌%◌, ◌<◌, ◌≡◌, refl, List, [], ◌∷◌, length, arith, ◌==◌, Bool-cases, inl,
  inr,
}
use cal_spread_backend.Brokers.Lane.{TickRateCounter, zeros, at_index, set_index, mark}

length-set_index : (i v : ℕ) (xs : List ℕ) → length (set_index i v xs) ≡ length xs
length-set_index i v [] = refl
length-set_index zero v (x ∷ xs) = refl
length-set_index (suc i) v (x ∷ xs) = omega (arith, length-set_index i v xs)

at_index-set_index : (i v : ℕ) (xs : List ℕ) → i < length xs → at_index i (set_index i v xs) ≡ v
at_index-set_index i v [] h = absurd (omega arith)
at_index-set_index zero v (x ∷ xs) h = refl
at_index-set_index (suc i) v (x ∷ xs) h = at_index-set_index i v xs (omega arith)

set_index_twice : (i v w : ℕ) (xs : List ℕ) → set_index i w (set_index i v xs) ≡ set_index i w xs
set_index_twice i v w [] = refl
set_index_twice zero v w (x ∷ xs) = refl
set_index_twice (suc i) v w (x ∷ xs) = ground (arith, set_index_twice i v w xs)

length-zeros : (n : ℕ) → length (zeros n) ≡ n
length-zeros zero = refl
length-zeros (suc n) = omega (arith, length-zeros n)

-- Both lists have a place for each second, and the cursor is one of them.
abbrev pub IsRing : TickRateCounter → Type 0
IsRing t =
    (t.cursor < t.seconds) × (length t.buckets ≡ t.seconds) × (length t.bucket_at ≡ t.seconds)

pub mark-IsRing : (count now : ℕ) (t : TickRateCounter) → IsRing t → IsRing (mark count now t)
unfolding mark
mark-IsRing count now t (inside, full, timed) =
    let next = (t.cursor + 1) % t.seconds in
    ground (
      arith,
      mod-lt (t.cursor + 1) {m = t.seconds} (omega (arith, inside)),
      length-set_index t.cursor (at_index t.cursor t.buckets + count) t.buckets,
      length-set_index next (now / 1000) t.bucket_at,
      length-set_index next count t.buckets,
    )

mark_again :
    (c d now later : ℕ) (t : TickRateCounter)
    → IsRing t
    → now / 1000 ≡ later / 1000
    → mark d later (mark c now t) ≡ mark (c + d) now t
unfolding mark
mark_again c d now later t (inside, full, timed) same =
    let here = at_index t.cursor t.buckets in
    let next = (t.cursor + 1) % t.seconds in
    let room : next < t.seconds = mod-lt (t.cursor + 1) {m = t.seconds} (omega (arith, inside)) in
    elim (Bool-cases (at_index t.cursor t.bucket_at == now / 1000)) [
      | inl now_there ↦ ground (
        arith,
        same,
        now_there,
        at_index-set_index t.cursor (here + c) t.buckets (omega (arith, inside, full)),
        set_index_twice t.cursor (here + c) (here + c + d) t.buckets,
      )
      | inr new_second ↦ ground (
        arith,
        same,
        new_second,
        at_index-set_index next c t.buckets (omega (arith, room, full)),
        at_index-set_index next (now / 1000) t.bucket_at (omega (arith, room, timed)),
        set_index_twice next c (c + d) t.buckets,
      )
    ]

-- In a ring within its bounds, which a mark keeps, two marks in the same second count as one mark of
-- the sum.
mark_twice :
    (c d now later : ℕ) (t : TickRateCounter)
    → IsRing t
    → now / 1000 ≡ later / 1000
    → IsRing (mark c now t) × (mark d later (mark c now t) ≡ mark (c + d) now t)
mark_twice c d now later t ring same =
    (mark-IsRing c now t ring, mark_again c d now later t ring same)
