-- ===== src/Brokers/Subscriptions/Promises.antt =====
-- What each method of subscriptions.go promises its caller.
use cal_spread_backend.Base.{
  ◌+◌, ◌≤◌, ◌≡◌, ◌≢◌, refl, ap, ◌∙◌, true, false, none, some, List, [], ◌∷◌, arith, ltb,
  if◌then◌else◌, mem, Option-cases, inl, inr, ite, not, ◌&&◌,
}
use cal_spread_backend.Base.Int.{ℤ, pos, is_nonpositive}
use cal_spread_backend.Base.Maps.{get, get-delete, get-put}
use cal_spread_backend.Brokers.Subscriptions.{
  Owner, Owner-discrete, LeaseId, LeaseId-discrete, acquired, owner_set, Coordinator, Call, count,
  counts_of, owns, distinct_valid, add_lease, remove_lease, acquire_locked, release_lease,
  set_owner_locked, yield_analytics, acquire, set_owner_tokens,
}
use cal_spread_backend.Brokers.Subscriptions.Counting.{counts_of-hold, Distinct}
use cal_spread_backend.Brokers.Subscriptions.Leases.{holding, others, holding-others, holding-put}
use cal_spread_backend.Brokers.Subscriptions.Sets.{has, distinct_valid_lem, has-gathered}
use cal_spread_backend.Brokers.Subscriptions.Invariant.{
  Inv, recounted, count-recounted, count-raise, acquire_locked-Inv,
}
use cal_spread_backend.Brokers.Subscriptions.Replace.{settled, set_owner_locked_lem, others-get}

owns_lem :
    (o : Owner) (t : ℤ) (c : Coordinator) → owns o t c ≡ ltb 0 (count o (counts_of t c.counts))
unfolding owns counts_of
owns_lem o t c = ground arith

settled-recounted :
    (o : Owner) (want : List ℤ) (c : Coordinator) → (settled o want c).counts ≡ recounted o want c
unfolding add_lease
settled-recounted o [] c = refl
settled-recounted o (w ∷ ws) c = refl

count_after :
    (o p : Owner) (want : List ℤ) (c : Coordinator) (t : ℤ)
    → Inv c
    → count p (counts_of t (set_owner_locked o want c).0.counts)
      ≡ count p (counts_of t (recounted o want c))
count_after o p want c t v =
    ap (λ (r : Coordinator × List Call). count p (counts_of t r.0.counts))
      (set_owner_locked_lem o want c v)
    ∙ ap (λ m. count p (counts_of t m)) (settled-recounted o want c)

no_handler :
    (o : Owner) (tokens : List ℤ) (c : Coordinator)
    → set_owner_tokens none o tokens c ≡ set_owner_locked o (distinct_valid tokens) c
unfolding set_owner_tokens yield_analytics
no_handler o tokens c = refl

-- After `SetOwnerTokens` (with no handler installed), where the owner held no token in two leases,
-- the owner owns exactly the positive tokens of its request, and the count of every other owner is
-- what it was.
pub set_owner_tokens_lem :
    (o : Owner) (tokens : List ℤ) (c : Coordinator)
    → Inv c
    → ((t : ℤ) → holding o t c.leases ≤ 1)
    → ((t : ℤ)
        → owns o t (set_owner_tokens none o tokens c).0 ≡ (has t tokens && not (is_nonpositive t)))
      × ((p : Owner) (t : ℤ)
          → p ≢ o
          → count p (counts_of t (set_owner_tokens none o tokens c).0.counts)
            ≡ count p (counts_of t c.counts))
unfolding mem
set_owner_tokens_lem o tokens c v single =
    let plain = no_handler o tokens c in
    let want = distinct_valid tokens in
    (
      λ t. ground (
        arith,
        ap (λ (r : Coordinator × List Call). owns o t r.0) plain,
        owns_lem o t (set_owner_locked o want c).0,
        count_after o o want c t v,
        count-recounted o o want c t v (distinct_valid_lem t tokens).1,
        has-gathered o t [] c.leases,
        (distinct_valid_lem t tokens).0,
        single t,
      ),
      λ p t ne. ground (
        arith,
        ap (λ (r : Coordinator × List Call). count p (counts_of t r.0.counts)) plain,
        count_after o p want c t v,
        count-recounted o p want c t v (distinct_valid_lem t tokens).1,
        v.accounted p t,
      ),
    )

-- `Acquire` (with no handler installed) raises the owner's count of each distinct positive token of
-- the request by one and no other count, keeps the invariant, and its lease has an id that no lease
-- had before.
pub acquire_lem :
    (o : Owner) (tokens : List ℤ) (c : Coordinator)
    → Inv c
    → let r = acquire none o tokens c in
      ((p : Owner) (t : ℤ)
        → count p (counts_of t r.0.counts)
          ≡ ite
              (Owner-discrete o p)
              (if has t tokens && not (is_nonpositive t)
                then count p (counts_of t c.counts) + 1
                else count p (counts_of t c.counts))
              (count p (counts_of t c.counts)))
      × Inv r.0
      × (get LeaseId-discrete r.2 c.leases ≡ none)
      × (get LeaseId-discrete r.2 r.0.leases
          ≡ some (record { owner = o; tokens = distinct_valid tokens }))
unfolding acquire yield_analytics acquire_locked add_lease
acquire_lem o tokens c v =
    let unique = distinct_valid tokens in
    let i = acquired o (c.lease_seq + 1) in
    (
      λ p t. ground (
        arith,
        counts_of-hold o unique c.counts t (distinct_valid_lem t tokens).1,
        count-raise o p (counts_of t c.counts),
        (distinct_valid_lem t tokens).0,
      ),
      acquire_locked-Inv o unique c v (distinct_valid_lem (pos 0) tokens).1,
      v.numbered o (c.lease_seq + 1) (omega arith),
      ground (arith, get-put LeaseId-discrete i i (record { owner = o; tokens = unique }) c.leases),
    )

-- A second release of a lease changes nothing and says nothing to the transport.
pub release_lease_twice :
    (i : LeaseId) (c : Coordinator)
    → release_lease i (release_lease i c).0 ≡ ((release_lease i c).0, [])
unfolding release_lease remove_lease
release_lease_twice i c = elim (Option-cases (get LeaseId-discrete i c.leases)) [
  | inl e ↦ ground (arith, e)
  | inr (l, e) ↦ ground (arith, e, get-delete LeaseId-discrete i i c.leases)
]

settled-holding :
    (o : Owner) (want : List ℤ) (c : Coordinator) (t : ℤ)
    → Inv c
    → has t want ≡ false
    → holding o t (settled o want c).leases ≡ 0
unfolding add_lease
settled-holding o [] c t v h = ground (arith, holding-others o o t c.leases)
settled-holding o (w ∷ ws) c t v h = ground (
  arith,
  holding-others o o t c.leases,
  others-get o (owner_set o) c.leases v.wellformed,
  holding-put o t (owner_set o) (record { owner = o; tokens = w ∷ ws }) (others o c.leases),
)

-- If an owner has a token in two leases or more and replaces its set by one without the token, then
-- the owner has no lease with the token left and yet still counts as holding it.
pub set_owner_locked_leak :
    (o : Owner) (want : List ℤ) (c : Coordinator) (t : ℤ)
    → Inv c
    → Distinct want
    → 2 ≤ holding o t c.leases
    → has t want ≡ false
    → (owns o t (set_owner_locked o want c).0 ≡ true)
      × (holding o t (set_owner_locked o want c).0.leases ≡ 0)
set_owner_locked_leak o want c t v d two not_wanted = (
  ground (
    arith,
    owns_lem o t (set_owner_locked o want c).0,
    count_after o o want c t v,
    count-recounted o o want c t v d,
  ),
  ap (λ (r : Coordinator × List Call). holding o t r.0.leases) (set_owner_locked_lem o want c v)
      ∙ settled-holding o want c t v not_wanted,
)
