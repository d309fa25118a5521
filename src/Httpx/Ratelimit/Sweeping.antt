-- ===== src/Httpx/Ratelimit/Sweeping.antt =====
-- The sweep of internal/httpx/ratelimit.go changes no answer.
use cal_spread_backend.Base.{
  ℕ, ◌+◌, ◌≤◌, ◌<◌, ◌≡◌, refl, ap, ap₂, sym, ◌⊎◌, inl, inr, String, Option, none, some, List, [],
  ◌∷◌, ltb, Bool-cases, arith, subst,
}
use cal_spread_backend.Base.Maps.{Map, get, put, get-put}
use cal_spread_backend.Base.Keys.{Unique, put-Unique}
use cal_spread_backend.Httpx.Ratelimit.{
  String-discrete, Bucket, Limiter, drop_expired, sweep, bucket_for, count_request, allow, counted,
  answer, Answer, new_limiter,
}

-- A client's buckets in the two tables count alike: they are the same, or the swept one is gone and
-- the other has expired.
abbrev pub Alike : ℕ → Option Bucket → Option Bucket → Type 0
Alike now o o' = (o ≡ o') ⊎ ((b : Bucket) × ((o ≡ none) × (o' ≡ some b) × (b.reset_at < now)))

Alike-later :
    (now later : ℕ) (o o' : Option Bucket) → now ≤ later → Alike now o o' → Alike later o o'
Alike-later now later o o' h (inl same) = inl same
Alike-later now later o o' h (inr (b, (gone, there, old))) =
    inr (b, (gone, there, omega (arith, old)))

drop_expired_absent :
    (now : ℕ) (ip : String) (m : Map String Bucket)
    → get String-discrete ip m ≡ none
    → get String-discrete ip (drop_expired now m) ≡ none
unfolding drop_expired get
drop_expired_absent now ip [] h = refl
drop_expired_absent now ip ((k, b) ∷ m) h = ground (arith, h, drop_expired_absent now ip m)

drop_expired-Unique :
    (now : ℕ) (m : Map String Bucket)
    → Unique String-discrete m
    → Unique String-discrete (drop_expired now m)
unfolding drop_expired
drop_expired-Unique now [] u = tt
drop_expired-Unique now ((k, b) ∷ m) u = elim (Bool-cases (ltb b.reset_at now)) [
  | inl old ↦ rw (old, drop_expired) (drop_expired-Unique now m u.1)
  | inr live ↦
      rw (live, drop_expired) (drop_expired_absent now k m u.0, drop_expired-Unique now m u.1)
]

drop_expired-Alike :
    (now : ℕ) (ip : String) (m : Map String Bucket)
    → Unique String-discrete m
    → Alike now (get String-discrete ip (drop_expired now m)) (get String-discrete ip m)
unfolding drop_expired get
drop_expired-Alike now ip [] u = inl refl
drop_expired-Alike now ip ((k, b) ∷ m) u = elim (String-discrete k ip) [
  | yes same ↦ elim (Bool-cases (ltb b.reset_at now)) [
    | inl old ↦ inr (
      b,
      (
        ground (arith, old, same, drop_expired_absent now ip m, u.0),
        ground (arith, same),
        ground (arith, old),
      ),
    )
    | inr live ↦ inl (ground (arith, live, same))
  ]
  | no other ↦ elim (drop_expired-Alike now ip m u.1) [
    | inl eq ↦ inl (ground (arith, eq, other))
    | inr (c, (gone, there, old)) ↦
        inr (c, (ground (arith, gone, other), ground (arith, there, other), old))
  ]
]

bucket_for-Alike :
    (now window : ℕ) (o o' : Option Bucket)
    → Alike now o o'
    → bucket_for now window o ≡ bucket_for now window o'
unfolding bucket_for
bucket_for-Alike now window o o' (inl same) = ap (bucket_for now window) same
bucket_for-Alike now window o o' (inr (b, (gone, there, old))) = ground (arith, gone, there, old)

Alike-trans : (now : ℕ) (o p q : Option Bucket) → Alike now o p → Alike now p q → Alike now o q
Alike-trans now o p q (inl same) h = subst (λ x. Alike now x q) (sym same) h
Alike-trans now o p q (inr x) (inl same) = subst (Alike now o) same (inr x)
Alike-trans now o p q (inr (b, (gone, there, old))) (inr (c, (gone', there', old'))) =
    absurd (ground (arith, there, gone'))

-- The limiters differ at most in buckets that no longer count.
pub record Same (now : ℕ) (l l' : Limiter) : Type 0 where
  pub window : l.window_ms ≡ l'.window_ms
  pub most : l.max ≡ l'.max
  pub unique : Unique String-discrete l.buckets
  pub alike :
      (ip : String)
      → Alike now (get String-discrete ip l.buckets) (get String-discrete ip l'.buckets)

sweep-Same : (now : ℕ) (l l' : Limiter) → Same now l l' → Same now (sweep now l) l'
unfolding sweep
sweep-Same now l l' s = elim (Bool-cases (ltb now (l.last_sweep + l.window_ms))) [
  | inl early ↦ rw (early, sweep) s
  | inr due ↦
      rw (due, sweep)
        (record {
          window = s.window;
          most = s.most;
          unique = drop_expired-Unique now l.buckets s.unique;
          alike = λ ip.
              Alike-trans now (get String-discrete ip (drop_expired now l.buckets))
                (get String-discrete ip l.buckets) (get String-discrete ip l'.buckets)
                (drop_expired-Alike now ip l.buckets s.unique) (s.alike ip);
        })
]

put-Alike :
    (now : ℕ) (ip j : String) (b b' : Bucket) (m m' : Map String Bucket)
    → b ≡ b'
    → Alike now (get String-discrete j m) (get String-discrete j m')
    → Alike now
        (get String-discrete j (put String-discrete ip b m))
        (get String-discrete j (put String-discrete ip b' m'))
put-Alike now ip j b b' m m' eq h = elim (String-discrete ip j) [
  | yes same ↦ inl (
      ground
        (arith, eq, same, get-put String-discrete ip j b m, get-put String-discrete ip j b' m'))
  | no other ↦ elim h [
    | inl x ↦ inl (
        ground
          (arith, x, other, get-put String-discrete ip j b m, get-put String-discrete ip j b' m'))
    | inr (c, (gone, there, old)) ↦ inr (
      c,
      (
        ground (arith, gone, other, get-put String-discrete ip j b m),
        ground (arith, there, other, get-put String-discrete ip j b' m'),
        old,
      ),
    )
  ]
]

counted-Same :
    (ip : String) (now : ℕ) (l l' : Limiter) → Same now l l' → counted ip now l ≡ counted ip now l'
counted-Same ip now l l' s =
    let o = get String-discrete ip l.buckets in
    let o' = get String-discrete ip l'.buckets in
    ground (arith, bucket_for-Alike now l.window_ms o o' (s.alike ip), s.window)

count_request_lem :
    (ip : String) (now : ℕ) (l l' : Limiter)
    → Same now l l'
    → ((count_request ip now l).1 ≡ (count_request ip now l').1)
      × Same now (count_request ip now l).0 (count_request ip now l').0
unfolding count_request
count_request_lem ip now l l' s =
    let eq = counted-Same ip now l l' s in
    (
      ap₂ (λ most b. answer most now b) s.most eq,
      record {
        window = s.window;
        most = s.most;
        unique = put-Unique String-discrete ip (counted ip now l) l.buckets s.unique;
        alike = λ j.
            put-Alike now ip j (counted ip now l) (counted ip now l') l.buckets l'.buckets eq
              (s.alike j);
      },
    )

-- The answers to a sequence of requests, each a client and a time.
unfoldable pub answers : List (String × ℕ) → Limiter → List Answer
answers [] l = []
answers ((ip, now) ∷ rest) l = let (l', a) = allow ip now l in a ∷ answers rest l'

-- The same without any sweep: one window for each client, from its first request on, and the next
-- from the first request after its end.
unfoldable pub unswept : List (String × ℕ) → Limiter → List Answer
unswept [] l = []
unswept ((ip, now) ∷ rest) l = let (l', a) = count_request ip now l in a ∷ unswept rest l'

-- Time does not go back.
abbrev pub InOrder : ℕ → List (String × ℕ) → Type 0
InOrder now [] = Unit {0}
InOrder now ((ip, at) ∷ rest) = (now ≤ at) × InOrder at rest

Same-later : (now later : ℕ) (l l' : Limiter) → now ≤ later → Same now l l' → Same later l l'
Same-later now later l l' h s = record {
  window = s.window;
  most = s.most;
  unique = s.unique;
  alike = λ ip.
      Alike-later now later (get String-discrete ip l.buckets) (get String-discrete ip l'.buckets) h
        (s.alike ip);
}

answers-Same :
    (requests : List (String × ℕ)) (start : ℕ) (l l' : Limiter)
    → Same start l l'
    → InOrder start requests
    → answers requests l ≡ unswept requests l'
unfolding answers unswept allow
answers-Same [] start l l' s o = refl
answers-Same ((ip, now) ∷ rest) start l l' s o =
    let swept = sweep-Same now l l' (Same-later start now l l' o.0 s) in
    let next = count_request_lem ip now (sweep now l) l' swept in
    ap₂ ◌∷◌ next.0 (
      answers-Same rest now (count_request ip now (sweep now l)).0 (count_request ip now l').0
        next.1 o.1)

-- For requests in the order of time, a new limiter answers as one that never deletes a bucket.
pub answers-unswept :
    (window most : ℕ) (message : String) (start : ℕ) (requests : List (String × ℕ))
    → InOrder start requests
    → answers requests (new_limiter window most message start)
      ≡ unswept requests (new_limiter window most message start)
unfolding new_limiter
answers-unswept window most message start requests o =
    answers-Same requests start (new_limiter window most message start)
      (new_limiter window most message start)
      (record { window = refl; most = refl; unique = tt; alike = λ ip. inl refl }) o
