-- ===== src/Brokers/Subscriptions/Replace.antt =====
-- `SetOwnerTokens` of subscriptions.go: what it leaves, and when the counts still agree with the
-- leases.
use cal_spread_backend.Base.{
  ◌≤◌, ◌≡◌, refl, sym, subst, ap, none, List, [], ◌∷◌, ◌++◌, ite, if◌then◌else◌, mem, arith, All,
  is_empty,
}
use cal_spread_backend.Base.Int.{ℤ}
use cal_spread_backend.Base.Maps.{Map, get, keys, get-put}
use cal_spread_backend.Base.Keys.{Unique, put-Unique, keys-put_absent, put-All}
use cal_spread_backend.Brokers.Subscriptions.{
  Owner, Owner-discrete, Lease, LeaseId, acquired, owner_set, LeaseId-discrete, Coordinator, count,
  counts_of, hold, let_go, minus, collect, add_lease, replace_held, set_owner_locked, subscribes,
  unsubscribes,
}
use cal_spread_backend.Brokers.Subscriptions.Counting.{
  Distinct, IsCounted, hold-IsCounted, let_go-IsCounted,
}
use cal_spread_backend.Brokers.Subscriptions.Leases.{
  holding, holding-put, others, holding-others, collect_lem,
}
use cal_spread_backend.Brokers.Subscriptions.Sets.{has-gathered, minus-Distinct}
use cal_spread_backend.Brokers.Subscriptions.Invariant.{
  Inv, IsLease, owner_of, held_by, held_by-Distinct, recounted, set_Holds, count-recounted,
}

-- The coordinator without the owner's leases, and with the new counts.
abbrev pub stripped : Owner → List ℤ → Coordinator → Coordinator
stripped o want c = record c {
  counts = recounted o want c;
  leases = others o c.leases;
  lease_order = keys (others o c.leases);
}

abbrev pub settled : Owner → List ℤ → Coordinator → Coordinator
settled o want c =
    if is_empty want
    then stripped o want c
    else add_lease (owner_set o) (record { owner = o; tokens = want }) (stripped o want c)

collect_eq :
    (o : Owner) (c : Coordinator)
    → Inv c
    → collect o c.lease_order [] c ≡ (
      held_by o c,
      record c { leases = others o c.leases; lease_order = keys (others o c.leases) },
    )
collect_eq o c v = ground (arith, collect_lem o c v.unique v.ordered)

pub set_owner_locked_lem :
    (o : Owner) (want : List ℤ) (c : Coordinator)
    → Inv c
    → set_owner_locked o want c ≡ (
      settled o want c,
      unsubscribes (let_go o (minus (held_by o c) want) c.counts).1
          ++ subscribes
              (hold o
                (minus want (held_by o c))
                (let_go o (minus (held_by o c) want) c.counts).0).1,
    )
unfolding set_owner_locked
set_owner_locked_lem o want c v = ap (replace_held o want) (collect_eq o c v)

pub others-get :
    (o : Owner) (i : LeaseId) (m : Map LeaseId Lease)
    → All IsLease m
    → get LeaseId-discrete i (others o m)
      ≡ ite (Owner-discrete (owner_of i) o) none (get LeaseId-discrete i m)
unfolding others get
others-get o i [] w = ground arith
others-get o i ((j, l) ∷ m) w = ground (arith, others-get o i m w.1)

settled_accounted :
    (o p : Owner) (want : List ℤ) (c : Coordinator) (t : ℤ)
    → Inv c
    → Distinct want
    → holding o t c.leases ≤ 1
    → count p (counts_of t (settled o want c).counts) ≡ holding p t (settled o want c).leases
unfolding add_lease mem
settled_accounted o p [] c t v d single =
    ground (arith, count-recounted o p [] c t v d, holding-others o p t c.leases)
settled_accounted o p (w ∷ ws) c t v d single = ground (
  arith,
  count-recounted o p (w ∷ ws) c t v d,
  has-gathered o t [] c.leases,
  holding-others o p t c.leases,
  others-get o (owner_set o) c.leases v.wellformed,
  holding-put p t (owner_set o) (record { owner = o; tokens = w ∷ ws }) (others o c.leases),
)

others-Unique :
    (o : Owner) (m : Map LeaseId Lease)
    → All IsLease m
    → Unique LeaseId-discrete m
    → Unique LeaseId-discrete (others o m)
unfolding others
others-Unique o [] w u = tt
others-Unique o ((i, l) ∷ m) w u = ground (arith, others-Unique o m w.1 u.1, others-get o i m w.1)

pub others-All :
    (P : LeaseId × Lease → Type 0) (o : Owner) (m : Map LeaseId Lease)
    → All P m
    → All P (others o m)
unfolding others
others-All P o [] w = tt
others-All P o ((i, l) ∷ m) w =
    elim (Owner-discrete l.owner o) as (λ x. All P (ite x (others o m) ((i, l) ∷ others o m))) [
      | yes _ ↦ others-All P o m w.1
      | no _ ↦ (w.0, others-All P o m w.1)
    ]

recounted-IsCounted :
    (o : Owner) (want : List ℤ) (c : Coordinator) → Inv c → IsCounted (recounted o want c)
recounted-IsCounted o want c v = hold-IsCounted o _ _ (
    let_go-IsCounted o (minus (held_by o c) want) c.counts v.counted
      (minus-Distinct (held_by o c) want (held_by-Distinct o c)) (set_Holds o want c v))

settled-Inv :
    (o : Owner) (want : List ℤ) (c : Coordinator)
    → Inv c
    → Distinct want
    → ((t : ℤ) → holding o t c.leases ≤ 1)
    → Inv (settled o want c)
unfolding add_lease
settled-Inv o [] c v d single = record {
  counted = recounted-IsCounted o [] c v;
  accounted = λ p t. settled_accounted o p [] c t v d (single t);
  unique = others-Unique o c.leases v.wellformed v.unique;
  ordered = refl;
  wellformed = others-All IsLease o c.leases v.wellformed;
  numbered =
      λ p n h. ground (arith, others-get o (acquired p n) c.leases v.wellformed, v.numbered p n h);
}
settled-Inv o (w ∷ ws) c v d single =
    let l : Lease = record { owner = o; tokens = w ∷ ws } in
    let u = others-Unique o c.leases v.wellformed v.unique in
    let absent = others-get o (owner_set o) c.leases v.wellformed in
    record {
      counted = recounted-IsCounted o (w ∷ ws) c v;
      accounted = λ p t. settled_accounted o p (w ∷ ws) c t v d (single t);
      unique = put-Unique LeaseId-discrete (owner_set o) l (others o c.leases) u;
      ordered =
          ground
            (arith, absent, keys-put_absent LeaseId-discrete (owner_set o) l (others o c.leases));
      wellformed =
          put-All LeaseId-discrete IsLease (owner_set o) l (others o c.leases) (d, refl)
            (others-All IsLease o c.leases v.wellformed);
      numbered = λ p n h. ground (
        arith,
        get-put LeaseId-discrete (owner_set o) (acquired p n) l (others o c.leases),
        others-get o (acquired p n) c.leases v.wellformed,
        v.numbered p n h,
      );
    }

-- An owner that has no token in two leases may replace its set: the counts still agree with the
-- leases.
pub set_owner_locked-Inv :
    (o : Owner) (want : List ℤ) (c : Coordinator)
    → Inv c
    → Distinct want
    → ((t : ℤ) → holding o t c.leases ≤ 1)
    → Inv (set_owner_locked o want c).0
set_owner_locked-Inv o want c v d single =
    subst Inv (sym (ap (λ r. r.0) (set_owner_locked_lem o want c v)))
      (settled-Inv o want c v d single)
