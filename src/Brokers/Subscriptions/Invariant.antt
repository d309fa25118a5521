-- ===== src/Brokers/Subscriptions/Invariant.antt =====
-- subscriptions.go: the counts agree with the leases.
use cal_spread_backend.Base.{
  ℕ, ◌+◌, ◌-◌, ◌<◌, ◌≡◌, refl, sym, ap, ◌∙◌, none, some, List, [], ite, if◌then◌else◌, mem, remove,
  arith, All, Option-cases, inl, inr,
}
use cal_spread_backend.Base.Int.{ℤ}
use cal_spread_backend.Base.Maps.{Map, get, delete, keys, get-put, get-delete}
use cal_spread_backend.Base.Keys.{
  Unique, put-Unique, delete-Unique, keys-put_absent, keys-delete, put-All, delete-All, All-get,
}
use cal_spread_backend.Brokers.Subscriptions.{
  Owner, Owner-discrete, Lease, LeaseId, acquired, owner_set, LeaseId-discrete, Coordinator, Counts,
  count, raise, lower, counts_of, hold, let_go, minus, add_lease, remove_lease, new_coordinator,
  acquire_locked, release_lease,
}
use cal_spread_backend.Brokers.Subscriptions.Counting.{
  Distinct, IsCounted, Holds, hold-IsCounted, counts_of-hold, let_go-IsCounted, counts_of-let_go,
}
use cal_spread_backend.Brokers.Subscriptions.Leases.{holding, holding-put, holding-delete, gathered}
use cal_spread_backend.Brokers.Subscriptions.Sets.{
  has, has-gathered, gathered-Distinct, has-minus, minus-Distinct,
}

abbrev pub owner_of : LeaseId → Owner
owner_of (acquired o n) = o
owner_of (owner_set o) = o

-- A lease has distinct tokens, and its id names its owner.
abbrev pub IsLease : LeaseId × Lease → Type 0
IsLease (i, l) = Distinct l.tokens × (owner_of i ≡ l.owner)

pub record Inv (c : Coordinator) : Type 0 where
  pub counted : IsCounted c.counts
  -- An owner's count of a token is the number of its leases that have the token.
  pub accounted : (o : Owner) (t : ℤ) → count o (counts_of t c.counts) ≡ holding o t c.leases
  pub unique : Unique LeaseId-discrete c.leases
  pub ordered : c.lease_order ≡ keys c.leases
  pub wellformed : All IsLease c.leases
  -- No lease has an id that is still to be given out.
  pub numbered :
      (o : Owner) (n : ℕ) → c.lease_seq < n → get LeaseId-discrete (acquired o n) c.leases ≡ none

pub new_coordinator-Inv : Inv new_coordinator
unfolding new_coordinator counts_of holding get
new_coordinator-Inv = record {
  counted = record { sound = λ t. refl; live = λ t e h. absurd (ground arith) };
  accounted = λ o t. ground arith;
  unique = tt;
  ordered = refl;
  wellformed = tt;
  numbered = λ o n h. refl;
}

pub count-raise :
    (o p : Owner) (e : Counts)
    → count p (raise o e) ≡ ite (Owner-discrete o p) (count p e + 1) (count p e)
count-raise o p e = ground arith

acquire_accounted :
    (o p : Owner) (unique : List ℤ) (c : Coordinator) (t : ℤ)
    → Inv c
    → Distinct unique
    → let r = (acquire_locked o unique c).0 in count p (counts_of t r.counts) ≡ holding p t r.leases
unfolding acquire_locked add_lease
acquire_accounted o p unique c t v d = ground (
  arith,
  v.accounted p t,
  counts_of-hold o unique c.counts t d,
  count-raise o p (counts_of t c.counts),
  holding-put p t (acquired o (c.lease_seq + 1)) (record { owner = o; tokens = unique }) c.leases,
  v.numbered o (c.lease_seq + 1),
)

pub acquire_locked-Inv :
    (o : Owner) (unique : List ℤ) (c : Coordinator)
    → Inv c
    → Distinct unique
    → Inv (acquire_locked o unique c).0
unfolding acquire_locked add_lease
acquire_locked-Inv o unique c v d =
    let i = acquired o (c.lease_seq + 1) in
    let l : Lease = record { owner = o; tokens = unique } in
    let fresh = v.numbered o (c.lease_seq + 1) (omega arith) in
    record {
      counted = hold-IsCounted o unique c.counts v.counted;
      accounted = λ p t. acquire_accounted o p unique c t v d;
      unique = put-Unique LeaseId-discrete i l c.leases v.unique;
      ordered = ground (arith, fresh, v.ordered, keys-put_absent LeaseId-discrete i l c.leases);
      wellformed = put-All LeaseId-discrete IsLease i l c.leases (d, refl) v.wellformed;
      numbered = λ p n h.
          ground (arith, get-put LeaseId-discrete i (acquired p n) l c.leases, v.numbered p n);
    }

pub release_Holds :
    (i : LeaseId) (l : Lease) (c : Coordinator)
    → Inv c
    → get LeaseId-discrete i c.leases ≡ some l
    → Holds l.owner l.tokens c.counts
release_Holds i l c v e t h =
    ground (arith, v.accounted l.owner t, holding-delete l.owner t i l c.leases v.unique e)

count-lower :
    (o p : Owner) (e : Counts)
    → count p (lower o e) ≡ ite (Owner-discrete o p) (count p e - 1) (count p e)
count-lower o p e = ground arith

release_accounted :
    (i : LeaseId) (l : Lease) (p : Owner) (c : Coordinator) (t : ℤ)
    → Inv c
    → get LeaseId-discrete i c.leases ≡ some l
    → Distinct l.tokens
    → count p (counts_of t (let_go l.owner l.tokens c.counts).0)
      ≡ holding p t (delete LeaseId-discrete i c.leases)
release_accounted i l p c t v e d = ground (
  arith,
  v.accounted p t,
  counts_of-let_go l.owner l.tokens c.counts t v.counted d (release_Holds i l c v e),
  count-lower l.owner p (counts_of t c.counts),
  holding-delete p t i l c.leases v.unique e,
)

removed-Inv :
    (i : LeaseId) (l : Lease) (c : Coordinator)
    → Inv c
    → get LeaseId-discrete i c.leases ≡ some l
    → Inv (record (remove_lease i c) { counts = (let_go l.owner l.tokens c.counts).0 })
unfolding remove_lease
removed-Inv i l c v e =
    let ok = All-get LeaseId-discrete IsLease i l c.leases v.wellformed e in
    record {
      counted = let_go-IsCounted l.owner l.tokens c.counts v.counted ok.0 (release_Holds i l c v e);
      accounted = λ p t. release_accounted i l p c t v e ok.0;
      unique = delete-Unique LeaseId-discrete i c.leases v.unique;
      ordered =
          ap (remove LeaseId-discrete i) v.ordered
          ∙ sym (keys-delete LeaseId-discrete i c.leases v.unique);
      wellformed = delete-All LeaseId-discrete IsLease i c.leases v.wellformed;
      numbered = λ p n h.
          ground (arith, get-delete LeaseId-discrete i (acquired p n) c.leases, v.numbered p n);
    }

pub release_lease-Inv : (i : LeaseId) (c : Coordinator) → Inv c → Inv (release_lease i c).0
unfolding release_lease
release_lease-Inv i c v = elim (Option-cases (get LeaseId-discrete i c.leases)) [
  | inl e ↦ rw (e, release_lease) v
  | inr (l, e) ↦ rw (e, release_lease) (removed-Inv i l c v e)
]

-- The tokens that `SetOwnerTokens` finds with the owner.
abbrev pub held_by : Owner → Coordinator → List ℤ
held_by o c = gathered o [] c.leases

-- The counts that it leaves.
abbrev pub recounted : Owner → List ℤ → Coordinator → Map ℤ Counts
recounted o want c =
    (hold o (minus want (held_by o c)) (let_go o (minus (held_by o c) want) c.counts).0).0

pub set_Holds :
    (o : Owner) (want : List ℤ) (c : Coordinator)
    → Inv c
    → Holds o (minus (held_by o c) want) c.counts
unfolding mem
set_Holds o want c v t h =
    ground (arith, v.accounted o t, has-minus t (held_by o c) want, has-gathered o t [] c.leases)

pub held_by-Distinct : (o : Owner) (c : Coordinator) → Distinct (held_by o c)
held_by-Distinct o c = gathered-Distinct o [] c.leases tt

-- The count of each token after `SetOwnerTokens`, whatever leases the owner had.
pub count-recounted :
    (o p : Owner) (want : List ℤ) (c : Coordinator) (t : ℤ)
    → Inv c
    → Distinct want
    → count p (counts_of t (recounted o want c))
      ≡ ite
          (Owner-discrete o p)
          (if has t want
            then (if has t (held_by o c) then holding p t c.leases else holding p t c.leases + 1)
            else holding p t c.leases - 1)
          (holding p t c.leases)
count-recounted o p want c t v d =
    let held = held_by o c in
    let m = (let_go o (minus held want) c.counts).0 in
    ground (
      arith,
      v.accounted p t,
      has-minus t held want,
      has-minus t want held,
      has-gathered o t [] c.leases,
      counts_of-let_go o (minus held want) c.counts t v.counted
          (minus-Distinct held want (held_by-Distinct o c)) (set_Holds o want c v),
      counts_of-hold o (minus want held) m t (minus-Distinct want held d),
      count-lower o p (counts_of t c.counts),
      count-raise o p (counts_of t m),
    )
