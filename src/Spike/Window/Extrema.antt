-- ===== src/Spike/Window/Extrema.antt =====
-- window.go: the queues give the rolling extrema of all that was observed.
use cal_spread_backend.Base.{
  ℕ, ◌≤◌, ◌≡◌, refl, ap, sym, ◌∙◌, fun_ext, Bool, true, false, not, List, [], ◌∷◌, ◌++◌,
  if◌then◌else◌, arith, All, Bool-cases, inl, inr,
}
use cal_spread_backend.Base.Filter.{
  keep, keep-append, keep_comm, keep_absorb, keep_id, keep-All, keep-Chain, snoc-Chain, Chain,
  All-imp,
}
use cal_spread_backend.Base.Float.{Float64}
use cal_spread_backend.Spike.Types.{Sample}
use cal_spread_backend.Spike.Window.{trim_back, trim_front, expired}
use cal_spread_backend.Spike.Window.Survivors.{
  Goes, all_after, survivors, survivors-snoc, survivors-All, survivors-Chain, trim_back-keep,
  trim_back-cong,
}

module _ (fl : Float64) where
  open fl use {Num, le, lt, finite}

  abbrev pub IsFinite : Sample Num → Type 0
  IsFinite s = finite s.premium ≡ true

  abbrev pub Older : Sample Num → Sample Num → Type 0
  Older x y = x.t ≤ y.t

  abbrev pub recent : ℕ → Sample Num → Bool
  recent now s = not (expired fl now s)

  -- In the order of time, dropping the expired from the front is filtering.
  trim_front-keep :
      (now : ℕ) (xs : List (Sample Num))
      → Chain Older xs
      → trim_front (expired fl now) xs ≡ keep (recent now) xs
  unfolding trim_front keep
  trim_front-keep now [] c = refl
  trim_front-keep now (x ∷ xs) c = elim (Bool-cases (expired fl now x)) [
    | inl e ↦ rw e (trim_front-keep now xs c.1)
    | inr e ↦ rw e (
        ap (◌∷◌ x)
          (sym (keep_id (recent now) xs (All-imp (Older x) _ xs (λ y h. ground arith) c.0))))
  ]

  recent_mono :
      (now later : ℕ) (s : Sample Num) → now ≤ later → recent later s ≡ true → recent now s ≡ true
  recent_mono now later s h p = ground arith

  module _ (before : Sample Num → Sample Num → Bool) where
    -- The queue after the observations, at the time of the last use.
    abbrev pub queue_of : ℕ → List (Sample Num) → List (Sample Num)
    queue_of now obs = keep (recent now) (survivors before obs)

    survivors-Older :
        (obs : List (Sample Num)) → Chain Older obs → Chain Older (survivors before obs)
    unfolding survivors
    survivors-Older [] c = tt
    survivors-Older (x ∷ xs) c =
        elim (all_after before x xs)
          as (λ b. Chain Older (if b then x ∷ survivors before xs else survivors before xs)) [
            | true ↦ (survivors-All before (Older x) xs c.0, survivors-Older xs c.1)
            | false ↦ survivors-Older xs c.1
          ]

    pub survivors-recent :
        (now : ℕ) (obs : List (Sample Num))
        → Chain Older obs
        → keep (recent now) (survivors before obs) ≡ survivors before (keep (recent now) obs)
    unfolding survivors keep
    survivors-recent now [] c = refl
    survivors-recent now (x ∷ xs) c = elim (Bool-cases (recent now x)) [
      | inl e ↦
          let live = All-imp (Older x) (λ y. recent now y ≡ true) xs (λ y h. ground arith) c.0 in
          let whole = keep_id (recent now) xs live in
          ground (
            arith,
            e,
            whole,
            keep_id (recent now) (survivors before xs) (survivors-All before _ xs live),
          )
      | inr e ↦ ground (arith, e, survivors-recent now xs c.1)
    ]

  -- One queue, for either of the two comparisons.
  module _ (before : Sample Num → Sample Num → Bool) (pops : Sample Num → Sample Num → Bool)
      (agree : (s x : Sample Num) → IsFinite s → IsFinite x → pops s x ≡ not (before x s))
      (trans : (x y z : Sample Num)
        → before x y ≡ true
        → before y z ≡ true
        → before x z ≡ true) where
    not-not : (b : Bool) → not (not b) ≡ b
    not-not b = ground arith

    trim_back-queue :
        (now : ℕ) (obs : List (Sample Num)) (s : Sample Num)
        → All IsFinite obs
        → IsFinite s
        → trim_back (pops s) (queue_of before now obs)
          ≡ keep (λ x. before x s) (queue_of before now obs)
    trim_back-queue now obs s f g =
        let q = queue_of before now obs in
        let fin : All IsFinite q =
          keep-All IsFinite (recent now) _ (survivors-All before IsFinite obs f) in
        trim_back-cong (pops s) (λ x. not (before x s)) q
          (All-imp IsFinite _ q (λ x h. agree s x g h) fin)
        ∙ trim_back-keep before (λ x. not (before x s)) q (λ x y p h. ground (arith, trans x y s p))
            (keep-Chain (Goes before) (recent now) _ (survivors-Chain before obs))
        ∙ ap (λ (p : Sample Num → Bool). keep p q) (fun_ext (λ x. not-not (before x s)))

    pub queue-add :
        (now : ℕ) (obs : List (Sample Num)) (s : Sample Num)
        → now ≤ s.t
        → Chain Older obs
        → All (λ x. x.t ≤ s.t) obs
        → All IsFinite obs
        → IsFinite s
        → trim_front (expired fl s.t) (trim_back (pops s) (queue_of before now obs) ++ s ∷ [])
          ≡ queue_of before s.t (obs ++ s ∷ [])
    queue-add now obs s h c b f g =
        let v = survivors before obs in
        let kept = keep (λ x. before x s) (queue_of before now obs) in
        let ordered : Chain Older (kept ++ s ∷ []) =
          snoc-Chain Older kept s
            (keep-Chain Older _ _ (keep-Chain Older _ v (survivors-Older before obs c)))
            (keep-All _ _ _ (keep-All _ _ v (survivors-All before _ obs b))) in
        let absorbed : keep (recent s.t) kept ≡ keep (recent s.t) (keep (λ x. before x s) v) =
          keep_comm (recent s.t) (λ x. before x s) (queue_of before now obs)
          ∙ ap (keep (λ x. before x s))
              (keep_absorb (recent s.t) (recent now) v (λ x. recent_mono now s.t x h))
          ∙ keep_comm (λ x. before x s) (recent s.t) v in
        ap (λ q. trim_front (expired fl s.t) (q ++ s ∷ [])) (trim_back-queue now obs s f g)
        ∙ trim_front-keep s.t (kept ++ s ∷ []) ordered
        ∙ keep-append (recent s.t) kept (s ∷ [])
        ∙ ap (λ q. q ++ keep (recent s.t) (s ∷ [])) absorbed
        ∙ sym (keep-append (recent s.t) (keep (λ x. before x s) v) (s ∷ []))
        ∙ ap (keep (recent s.t)) (sym (survivors-snoc before obs s))

    -- A later look at the queue drops what has expired.
    pub queue-expire :
        (now later : ℕ) (obs : List (Sample Num))
        → now ≤ later
        → Chain Older obs
        → trim_front (expired fl later) (queue_of before now obs) ≡ queue_of before later obs
    queue-expire now later obs h c =
        let v = survivors before obs in
        trim_front-keep later (queue_of before now obs)
          (keep-Chain Older (recent now) v (survivors-Older before obs c))
        ∙ keep_absorb (recent later) (recent now) v (λ x. recent_mono now later x h)
