-- ===== src/Brokers/Subscriptions/Transport.antt =====
-- What the transport hears from subscriptions.go: the transitions, and nothing else.
use cal_spread_backend.Base.{
  ◌<◌, ◌≡◌, refl, true, false, Option, none, some, List, [], ◌∷◌, arith, ite, ltb, ◌==◌,
  if◌then◌else◌, mem, Bool-cases, inl, inr,
}
use cal_spread_backend.Base.Int.{ℤ, ℤ-discrete}
use cal_spread_backend.Base.Maps.{Map, put}
use cal_spread_backend.Brokers.Subscriptions.{
  Owner, Counts, Call, subscribe_tokens, unsubscribe_tokens, count, raise, counts_of, hold, dec,
  let_go,
}
use cal_spread_backend.Brokers.Subscriptions.Counting.{
  Distinct, IsCounted, Holds, counts_of-put, dec_lem, dec-IsCounted, Holds-head, Holds-tail,
}
use cal_spread_backend.Brokers.Subscriptions.Sets.{has}

-- The tokens that are subscribed upstream, after a call. It fails if a token is subscribed
-- that already was, or dropped that was not.
unfoldable pub subscribe_each : List ℤ → List ℤ → Option (List ℤ)
subscribe_each [] up = some up
subscribe_each (t ∷ ts) up =
    let rest = subscribe_each ts (t ∷ up) in if has t up then none else rest

unfoldable pub without : ℤ → List ℤ → List ℤ
without t [] = []
without t (x ∷ xs) = ite (ℤ-discrete x t) (without t xs) (x ∷ without t xs)

unfoldable pub unsubscribe_each : List ℤ → List ℤ → Option (List ℤ)
unfolding without
unsubscribe_each [] up = some up
unsubscribe_each (t ∷ ts) up =
    let rest = unsubscribe_each ts (without t up) in if has t up then rest else none

unfoldable pub replay : List Call → List ℤ → Option (List ℤ)
unfolding subscribe_each unsubscribe_each
replay [] up = some up
replay (subscribe_tokens ts ∷ cs) up = elim (subscribe_each ts up) [
  | none ↦ none
  | some up' ↦ replay cs up'
]
replay (unsubscribe_tokens ts ∷ cs) up = elim (unsubscribe_each ts up) [
  | none ↦ none
  | some up' ↦ replay cs up'
]

-- Exactly the tokens that somebody holds are subscribed upstream.
abbrev pub Mirrors : List ℤ → Map ℤ Counts → Type 0
Mirrors up m = (t : ℤ) → has t up ≡ ltb 0 (counts_of t m).total

has-without : (j t : ℤ) (up : List ℤ) → has j (without t up) ≡ ite (ℤ-discrete t j) false (has j up)
unfolding without mem
has-without j t [] = ground arith
has-without j t (x ∷ xs) = ground (arith, has-without j t xs)

hold_first :
    (o : Owner) (t j : ℤ) (m : Map ℤ Counts) (up : List ℤ)
    → Mirrors up m
    → ((counts_of t m).total == 0) ≡ true
    → has j (t ∷ up) ≡ ltb 0 (counts_of j (put ℤ-discrete t (raise o (counts_of t m)) m)).total
unfolding mem
hold_first o t j m up r h = ground (arith, r j, counts_of-put t j (raise o (counts_of t m)) m)

hold_again :
    (o : Owner) (t j : ℤ) (m : Map ℤ Counts) (up : List ℤ)
    → Mirrors up m
    → ((counts_of t m).total == 0) ≡ false
    → has j up ≡ ltb 0 (counts_of j (put ℤ-discrete t (raise o (counts_of t m)) m)).total
hold_again o t j m up r h = ground (arith, r j, r t, counts_of-put t j (raise o (counts_of t m)) m)

pub hold-Mirrors :
    (o : Owner) (ts : List ℤ) (m : Map ℤ Counts) (up : List ℤ)
    → Mirrors up m
    → (up' : List ℤ) × (subscribe_each (hold o ts m).1 up ≡ some up') × Mirrors up' (hold o ts m).0
unfolding hold subscribe_each
hold-Mirrors o [] m up r = (up, refl, r)
hold-Mirrors o (t ∷ ts) m up r =
    let m' = put ℤ-discrete t (raise o (counts_of t m)) m in
    elim (Bool-cases ((counts_of t m).total == 0)) [
      | inl new ↦
          let (up', e, r') = hold-Mirrors o ts m' (t ∷ up) (λ j. hold_first o t j m up r new) in
          (up', ground (arith, new, e, r t), r')
      | inr old ↦
          let (up', e, r') = hold-Mirrors o ts m' up (λ j. hold_again o t j m up r old) in
          (up', ground (arith, old, e), r')
    ]

dec_mirror :
    (o : Owner) (t j : ℤ) (m : Map ℤ Counts) (up : List ℤ)
    → Mirrors up m
    → IsCounted m
    → 0 < count o (counts_of t m)
    → has j (if (dec t o m).1 then without t up else up) ≡ ltb 0 (counts_of j (dec t o m).0).total
dec_mirror o t j m up r v h =
    ground (arith, r j, v.sound t, dec_lem o t m j v h, has-without j t up)

pub let_go-Mirrors :
    (o : Owner) (ts : List ℤ) (m : Map ℤ Counts) (up : List ℤ)
    → Mirrors up m
    → IsCounted m
    → Distinct ts
    → Holds o ts m
    → (up' : List ℤ) × (unsubscribe_each (let_go o ts m).1 up ≡ some up')
      × Mirrors up' (let_go o ts m).0
unfolding let_go unsubscribe_each
let_go-Mirrors o [] m up r v d h = (up, refl, r)
let_go-Mirrors o (t ∷ ts) m up r v d h =
    let first = Holds-head o t ts m h in
    let next = if (dec t o m).1 then without t up else up in
    let (up', e, r') =
      let_go-Mirrors o ts (dec t o m).0 next (λ j. dec_mirror o t j m up r v first)
        (dec-IsCounted o t m v first) d.1 (Holds-tail o t ts m v d h) in
    (up', ground (arith, e, r t, v.sound t, dec_lem o t m t v first), r')
