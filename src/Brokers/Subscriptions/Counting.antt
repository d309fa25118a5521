-- ===== src/Brokers/Subscriptions/Counting.antt =====
-- The counting loops of subscriptions.go, token by token.
use cal_spread_backend.Base.{
  ◌+◌, ◌<◌, ◌≡◌, refl, true, false, none, some, List, [], ◌∷◌, ite, ◌==◌, if◌then◌else◌, mem, arith,
  Option-cases, inl, inr,
}
use cal_spread_backend.Base.Int.{ℤ, ℤ-discrete}
use cal_spread_backend.Base.Maps.{Map, get, put, delete, get-put, get-delete}
use cal_spread_backend.Brokers.Subscriptions.{
  Owner, Counts, no_counts, count, raise, lower, counts_of, hold, dec, let_go,
}

-- No token twice.
abbrev pub Distinct : List ℤ → Type 0
Distinct [] = Unit {0}
Distinct (t ∷ ts) = (mem ℤ-discrete t ts ≡ false) × Distinct ts

-- The total is the sum of the owners' counts.
abbrev pub IsSound : Counts → Type 0
IsSound e = e.total ≡ e.browser + e.scanner + e.strategy + e.analytics

-- A stored entry is held by somebody, and its total is right.
pub record IsCounted (m : Map ℤ Counts) : Type 0 where
  pub sound : (t : ℤ) → IsSound (counts_of t m)
  pub live : (t : ℤ) (e : Counts) → get ℤ-discrete t m ≡ some e → 0 < e.total

pub counts_of-put :
    (t j : ℤ) (e : Counts) (m : Map ℤ Counts)
    → counts_of j (put ℤ-discrete t e m) ≡ ite (ℤ-discrete t j) e (counts_of j m)
unfolding counts_of
counts_of-put t j e m = ground (arith, get-put ℤ-discrete t j e m)

pub counts_of-delete :
    (t j : ℤ) (m : Map ℤ Counts)
    → counts_of j (delete ℤ-discrete t m) ≡ ite (ℤ-discrete t j) no_counts (counts_of j m)
unfolding counts_of
counts_of-delete t j m = ground (arith, get-delete ℤ-discrete t j m)

pub raise-IsSound : (o : Owner) (e : Counts) → IsSound e → IsSound (raise o e)
raise-IsSound o e h = ground arith

put-raise-IsCounted :
    (o : Owner) (t : ℤ) (m : Map ℤ Counts)
    → IsCounted m
    → IsCounted (put ℤ-discrete t (raise o (counts_of t m)) m)
put-raise-IsCounted o t m v = record {
  sound = λ j. ground (
    arith,
    counts_of-put t j (raise o (counts_of t m)) m,
    raise-IsSound o (counts_of t m) (v.sound t),
    v.sound j,
  );
  live = λ j e h. ground (
    arith,
    get-put ℤ-discrete t j (raise o (counts_of t m)) m,
    v.live j e,
    raise_pos o (counts_of t m),
  );
}
  where
    raise_pos : (o : Owner) (e : Counts) → 0 < (raise o e).total
    raise_pos o e = ground arith

pub hold-IsCounted :
    (o : Owner) (ts : List ℤ) (m : Map ℤ Counts) → IsCounted m → IsCounted (hold o ts m).0
unfolding hold
hold-IsCounted o [] m v = v
hold-IsCounted o (t ∷ ts) m v = hold-IsCounted o ts _ (put-raise-IsCounted o t m v)

-- Every token of the list is counted once more for the owner, and no other is touched.
pub counts_of-hold :
    (o : Owner) (ts : List ℤ) (m : Map ℤ Counts) (j : ℤ)
    → Distinct ts
    → counts_of j (hold o ts m).0
      ≡ (if mem ℤ-discrete j ts then raise o (counts_of j m) else counts_of j m)
unfolding hold mem
counts_of-hold o [] m j d = refl
counts_of-hold o (t ∷ ts) m j d =
    let m' = put ℤ-discrete t (raise o (counts_of t m)) m in
    ground (arith, counts_of-hold o ts m' j d.1, counts_of-put t j (raise o (counts_of t m)) m)

counts_of_stored :
    (t : ℤ) (m : Map ℤ Counts) (e : Counts) → get ℤ-discrete t m ≡ some e → counts_of t m ≡ e
unfolding counts_of
counts_of_stored t m e p = ground arith

counts_of_missing :
    (t : ℤ) (m : Map ℤ Counts) → get ℤ-discrete t m ≡ none → counts_of t m ≡ no_counts
unfolding counts_of
counts_of_missing t m p = ground arith

last_lower :
    (o : Owner) (e : Counts)
    → IsSound e
    → 0 < count o e
    → (lower o e).total ≡ 0
    → lower o e ≡ no_counts
last_lower o e s h z = ground arith

pub lower-IsSound : (o : Owner) (e : Counts) → IsSound e → 0 < count o e → IsSound (lower o e)
lower-IsSound o e s h = ground arith

-- The table after one owner's release of a token that it holds, and when the token is gone.
pub dec_lem :
    (o : Owner) (t : ℤ) (m : Map ℤ Counts) (j : ℤ)
    → IsCounted m
    → 0 < count o (counts_of t m)
    → (counts_of j (dec t o m).0 ≡ ite (ℤ-discrete t j) (lower o (counts_of t m)) (counts_of j m))
      × ((dec t o m).1 ≡ ((lower o (counts_of t m)).total == 0))
unfolding dec
dec_lem o t m j v h = elim (Option-cases (get ℤ-discrete t m)) [
  | inl e ↦ absurd (ground (arith, counts_of_missing t m e))
  | inr (e, p) ↦
      let same = counts_of_stored t m e p in
      ground (
        arith,
        same,
        v.sound t,
        last_lower o e,
        counts_of-put t j (lower o e) m,
        counts_of-delete t j m,
      )
]

dec_live :
    (o : Owner) (t : ℤ) (m : Map ℤ Counts) (j : ℤ) (e : Counts)
    → IsCounted m
    → 0 < count o (counts_of t m)
    → get ℤ-discrete j (dec t o m).0 ≡ some e
    → 0 < e.total
unfolding dec
dec_live o t m j e v h p = elim (Option-cases (get ℤ-discrete t m)) [
  | inl q ↦ absurd (ground (arith, counts_of_missing t m q))
  | inr (a, q) ↦
      ground (arith, v.live j e, get-put ℤ-discrete t j (lower o a) m, get-delete ℤ-discrete t j m)
]

pub dec-IsCounted :
    (o : Owner) (t : ℤ) (m : Map ℤ Counts)
    → IsCounted m
    → 0 < count o (counts_of t m)
    → IsCounted (dec t o m).0
dec-IsCounted o t m v h = record {
  sound = λ j.
      ground (arith, dec_lem o t m j v h, lower-IsSound o (counts_of t m) (v.sound t) h, v.sound j);
  live = λ j e. dec_live o t m j e v h;
}

-- The owner holds each token of the list.
abbrev pub Holds : Owner → List ℤ → Map ℤ Counts → Type 0
Holds o ts m = (t : ℤ) → mem ℤ-discrete t ts ≡ true → 0 < count o (counts_of t m)

pub Holds-tail :
    (o : Owner) (t : ℤ) (ts : List ℤ) (m : Map ℤ Counts)
    → IsCounted m
    → Distinct (t ∷ ts)
    → Holds o (t ∷ ts) m
    → Holds o ts (dec t o m).0
unfolding mem
Holds-tail o t ts m v d h j p = ground (arith, dec_lem o t m j v (h t (ground arith)), h j)

pub Holds-head :
    (o : Owner) (t : ℤ) (ts : List ℤ) (m : Map ℤ Counts)
    → Holds o (t ∷ ts) m
    → 0 < count o (counts_of t m)
unfolding mem
Holds-head o t ts m h = h t (ground arith)

pub let_go-IsCounted :
    (o : Owner) (ts : List ℤ) (m : Map ℤ Counts)
    → IsCounted m
    → Distinct ts
    → Holds o ts m
    → IsCounted (let_go o ts m).0
unfolding let_go
let_go-IsCounted o [] m v d h = v
let_go-IsCounted o (t ∷ ts) m v d h =
    let_go-IsCounted o ts (dec t o m).0 (dec-IsCounted o t m v (Holds-head o t ts m h)) d.1
      (Holds-tail o t ts m v d h)

let_go_step :
    (o : Owner) (t j : ℤ) (ts : List ℤ) (m : Map ℤ Counts) (x y : Counts)
    → mem ℤ-discrete t ts ≡ false
    → x ≡ (if mem ℤ-discrete j ts then lower o y else y)
    → y ≡ ite (ℤ-discrete t j) (lower o (counts_of t m)) (counts_of j m)
    → x ≡ (if mem ℤ-discrete j (t ∷ ts) then lower o (counts_of j m) else counts_of j m)
unfolding mem
let_go_step o t j ts m x y d p q = ground arith

-- Every token of the list is counted once less for the owner, and no other is touched.
pub counts_of-let_go :
    (o : Owner) (ts : List ℤ) (m : Map ℤ Counts) (j : ℤ)
    → IsCounted m
    → Distinct ts
    → Holds o ts m
    → counts_of j (let_go o ts m).0
      ≡ (if mem ℤ-discrete j ts then lower o (counts_of j m) else counts_of j m)
unfolding let_go mem
counts_of-let_go o [] m j v d h = refl
counts_of-let_go o (t ∷ ts) m j v d h =
    let first = Holds-head o t ts m h in
    let_go_step o t j ts m _ _ d.0
      (counts_of-let_go o ts (dec t o m).0 j (dec-IsCounted o t m v first) d.1
        (Holds-tail o t ts m v d h))
      (dec_lem o t m j v first).0
