-- ===== src/Spike/Window/Rolling.antt =====
-- window.go over any sequence of uses: what `References` returns.
use mathlib.Core.List.{append_assoc, append-nil}
use cal_spread_backend.Base.{
  ℕ, ◌≤◌, ◌≡◌, refl, ap, ap₂, ◌∙◌, subst, Bool, true, false, not, List, [], ◌∷◌, ◌++◌, arith, All,
}
use cal_spread_backend.Base.Filter.{keep, keep-All, Chain, All-imp, append-All, snoc-Chain}
use cal_spread_backend.Base.Float.{Float64, lt-not_le, lt_trans, not_lt_trans}
use cal_spread_backend.Spike.Types.{Sample}
use cal_spread_backend.Spike.Window.{PriceWindow, first, references, add_sample}
use cal_spread_backend.Spike.Window.Survivors.{survivors, extremum, first-survivors}
use cal_spread_backend.Spike.Window.Extrema.{
  IsFinite, Older, recent, queue_of, queue-add, queue-expire, survivors-recent,
}

-- A use of the window: `Add`, or `References` at a time.
pub data Use (Num : Type 0) : Type 0 where
  adds : Sample Num → Use Num
  reads : ℕ → Use Num

module _ (fl : Float64) where
  open fl use {Num, le, lt}

  abbrev pub time_of : Use Num → ℕ
  time_of (adds s) = s.t
  time_of (reads now) = now

  pub use_window : Use Num → PriceWindow Num → PriceWindow Num
  unfolding add_sample references
  use_window (adds s) w = add_sample fl s w
  use_window (reads now) w = (references fl now w).0

  pub use_all : List (Use Num) → PriceWindow Num → PriceWindow Num
  use_all [] w = w
  use_all (u ∷ us) w = use_all us (use_window u w)

  abbrev pub new_window : PriceWindow Num
  new_window = record { low = []; high = [] }

  -- Time does not go back, and every added premium is a finite number.
  abbrev pub InOrder : ℕ → List (Use Num) → Type 0
  InOrder now [] = Unit {0}
  InOrder now (u ∷ us) = (now ≤ time_of u) × InOrder (time_of u) us

  abbrev pub Finite : List (Use Num) → Type 0
  Finite [] = Unit {0}
  Finite (adds s ∷ us) = IsFinite fl s × Finite us
  Finite (reads now ∷ us) = Finite us

  abbrev pub last_time : ℕ → List (Use Num) → ℕ
  last_time now [] = now
  last_time now (u ∷ us) = last_time (time_of u) us

  -- The samples added, oldest first.
  abbrev pub observed : List (Use Num) → List (Sample Num)
  observed [] = []
  observed (adds s ∷ us) = s ∷ observed us
  observed (reads now ∷ us) = observed us

  abbrev pub cheaper : Sample Num → Sample Num → Bool
  cheaper x y = lt x.premium y.premium

  abbrev pub dearer : Sample Num → Sample Num → Bool
  dearer x y = lt y.premium x.premium

  abbrev pops_low : Sample Num → Sample Num → Bool
  pops_low s x = le s.premium x.premium

  abbrev pops_high : Sample Num → Sample Num → Bool
  pops_high s x = le x.premium s.premium

  agree_low : (s x : Sample Num) → IsFinite fl s → IsFinite fl x → pops_low s x ≡ not (cheaper x s)
  agree_low s x f g = ground (arith, lt-not_le fl x.premium s.premium g f)

  agree_high : (s x : Sample Num) → IsFinite fl s → IsFinite fl x → pops_high s x ≡ not (dearer x s)
  agree_high s x f g = ground (arith, lt-not_le fl s.premium x.premium f g)

  cheaper_trans :
      (x y z : Sample Num) → cheaper x y ≡ true → cheaper y z ≡ true → cheaper x z ≡ true
  cheaper_trans x y z p q = lt_trans fl x.premium y.premium z.premium p q

  dearer_trans : (x y z : Sample Num) → dearer x y ≡ true → dearer y z ≡ true → dearer x z ≡ true
  dearer_trans x y z p q = lt_trans fl z.premium y.premium x.premium q p

  record IsWindow (now : ℕ) (obs : List (Sample Num)) (w : PriceWindow Num) : Type 0 where
    low : w.low ≡ queue_of fl cheaper now obs
    high : w.high ≡ queue_of fl dearer now obs
    ordered : Chain (Older fl) obs
    past : All (λ x. x.t ≤ now) obs
    finite : All (IsFinite fl) obs

  new-IsWindow : IsWindow 0 [] new_window
  unfolding survivors keep
  new-IsWindow = record { low = refl; high = refl; ordered = tt; past = tt; finite = tt }

  add-IsWindow :
      (now : ℕ) (obs : List (Sample Num)) (w : PriceWindow Num) (s : Sample Num)
      → IsWindow now obs w
      → now ≤ s.t
      → IsFinite fl s
      → IsWindow s.t (obs ++ s ∷ []) (add_sample fl s w)
  unfolding add_sample references
  add-IsWindow now obs w s v h g =
      let before : All (λ x. x.t ≤ s.t) obs =
        All-imp (λ x. x.t ≤ now) _ obs (λ x p. omega arith) v.past in
      record {
        low = rw v.low (
            queue-add fl cheaper pops_low agree_low cheaper_trans now obs s h v.ordered before
              v.finite g);
        high = rw v.high (
            queue-add fl dearer pops_high agree_high dearer_trans now obs s h v.ordered before
              v.finite g);
        ordered = snoc-Chain (Older fl) obs s v.ordered before;
        past = append-All (λ x. x.t ≤ s.t) obs (s ∷ []) before (omega arith, tt);
        finite = append-All (IsFinite fl) obs (s ∷ []) v.finite (g, tt);
      }

  read-IsWindow :
      (now later : ℕ) (obs : List (Sample Num)) (w : PriceWindow Num)
      → IsWindow now obs w
      → now ≤ later
      → IsWindow later obs (references fl later w).0
  unfolding references
  read-IsWindow now later obs w v h = record {
    low =
        rw v.low
          (queue-expire fl cheaper pops_low agree_low cheaper_trans now later obs h v.ordered);
    high =
        rw v.high
          (queue-expire fl dearer pops_high agree_high dearer_trans now later obs h v.ordered);
    ordered = v.ordered;
    past = All-imp (λ x. x.t ≤ now) _ obs (λ x p. omega arith) v.past;
    finite = v.finite;
  }

  use_all-IsWindow :
      (us : List (Use Num)) (now : ℕ) (obs : List (Sample Num)) (w : PriceWindow Num)
      → IsWindow now obs w
      → InOrder now us
      → Finite us
      → IsWindow (last_time now us) (obs ++ observed us) (use_all us w)
  unfolding use_all use_window
  use_all-IsWindow [] now obs w v o f = rw append-nil v
  use_all-IsWindow (adds s ∷ us) now obs w v o f =
      subst (λ l. IsWindow (last_time s.t us) l (use_all us (add_sample fl s w)))
        (append_assoc obs (s ∷ []) (observed us))
        (use_all-IsWindow us s.t (obs ++ s ∷ []) (add_sample fl s w)
          (add-IsWindow now obs w s v o.0 f.0) o.1 f.1)
  use_all-IsWindow (reads later ∷ us) now obs w v o f =
      use_all-IsWindow us later obs (references fl later w).0 (read-IsWindow now later obs w v o.0)
        o.1 f

  not_cheaper_trans :
      (x y z : Sample Num)
      → IsFinite fl x
      → IsFinite fl y
      → IsFinite fl z
      → cheaper x y ≡ false
      → cheaper y z ≡ false
      → cheaper x z ≡ false
  not_cheaper_trans x y z = not_lt_trans fl x.premium y.premium z.premium

  not_dearer_trans :
      (x y z : Sample Num)
      → IsFinite fl x
      → IsFinite fl y
      → IsFinite fl z
      → dearer x y ≡ false
      → dearer y z ≡ false
      → dearer x z ≡ false
  not_dearer_trans x y z f g h p q = not_lt_trans fl z.premium y.premium x.premium h g f q p

  -- The samples of the last 30 minutes.
  abbrev pub recent_of : ℕ → List (Use Num) → List (Sample Num)
  recent_of now us = keep (recent fl now) (observed us)

  -- After any sequence of additions and reads in the order of time, with finite premiums,
  -- `References` returns what a scan of all the samples of the last 30 minutes finds: the newest
  -- of the cheapest, then the newest of the dearest, and nothing if there is no such sample.
  pub references_rolling :
      (us : List (Use Num)) (now : ℕ)
      → InOrder 0 us
      → Finite us
      → last_time 0 us ≤ now
      → (references fl now (use_all us new_window)).1
        ≡ extremum cheaper (recent_of now us) ++ extremum dearer (recent_of now us)
  unfolding references
  references_rolling us now o f h =
      let v = use_all-IsWindow us 0 [] new_window new-IsWindow o f in
      let w = read-IsWindow (last_time 0 us) now (observed us) (use_all us new_window) v h in
      let fin = keep-All (IsFinite fl) (recent fl now) (observed us) w.finite in
      ap₂ ◌++◌
        (ap first (w.low ∙ survivors-recent fl cheaper now (observed us) w.ordered)
          ∙ first-survivors cheaper (IsFinite fl) cheaper_trans not_cheaper_trans (recent_of now us)
              fin)
        (ap first (w.high ∙ survivors-recent fl dearer now (observed us) w.ordered)
          ∙ first-survivors dearer (IsFinite fl) dearer_trans not_dearer_trans (recent_of now us)
              fin)
