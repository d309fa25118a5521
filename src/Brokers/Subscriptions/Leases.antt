-- ===== src/Brokers/Subscriptions/Leases.antt =====
-- Who holds a token by the leases of subscriptions.go, and what the leases become.
use cal_spread_backend.Base.{
  ℕ, ◌+◌, ◌≡◌, refl, sym, ◌∙◌, ap, subst, none, some, List, [], ◌∷◌, ◌++◌, ite, if◌then◌else◌, mem,
  remove, arith,
}
use cal_spread_backend.Base.Int.{ℤ, ℤ-discrete}
use cal_spread_backend.Base.Maps.{Map, get, put, delete, keys}
use mathlib.Core.List.{append_assoc}
use cal_spread_backend.Base.Keys.{
  Unique, delete_absent, get-middle, delete-middle, keys-delete, delete-Unique,
}
use cal_spread_backend.Brokers.Subscriptions.{
  Owner, Owner-discrete, Lease, LeaseId, LeaseId-discrete, Coordinator, join, collect, remove_lease,
}

-- 1 if the lease is the owner's and has the token.
abbrev pub claims : Owner → ℤ → Lease → ℕ
claims o t l = ite (Owner-discrete l.owner o) (if mem ℤ-discrete t l.tokens then 1 else 0) 0

-- The number of the owner's leases that have the token.
unfoldable pub holding : Owner → ℤ → Map LeaseId Lease → ℕ
holding o t [] = 0
holding o t ((i, l) ∷ m) = claims o t l + holding o t m

pub holding-put :
    (o : Owner) (t : ℤ) (i : LeaseId) (l : Lease) (m : Map LeaseId Lease)
    → get LeaseId-discrete i m ≡ none
    → holding o t (put LeaseId-discrete i l m) ≡ claims o t l + holding o t m
unfolding holding put get
holding-put o t i l [] h = refl
holding-put o t i l ((j, k) ∷ m) h = ground (arith, holding-put o t i l m)

pub holding-delete :
    (o : Owner) (t : ℤ) (i : LeaseId) (l : Lease) (m : Map LeaseId Lease)
    → Unique LeaseId-discrete m
    → get LeaseId-discrete i m ≡ some l
    → holding o t m ≡ claims o t l + holding o t (delete LeaseId-discrete i m)
unfolding holding delete get
holding-delete o t i l [] u h = absurd (ground arith)
holding-delete o t i l ((j, k) ∷ m) u h =
    ground (arith, holding-delete o t i l m u.1, delete_absent LeaseId-discrete j m u.0)

-- The leases of the other owners.
unfoldable pub others : Owner → Map LeaseId Lease → Map LeaseId Lease
others o [] = []
others o ((i, l) ∷ m) = ite (Owner-discrete l.owner o) (others o m) ((i, l) ∷ others o m)

pub holding-others :
    (o p : Owner) (t : ℤ) (m : Map LeaseId Lease)
    → holding p t (others o m) ≡ ite (Owner-discrete p o) 0 (holding p t m)
unfolding holding others
holding-others o p t [] = ground arith
holding-others o p t ((i, l) ∷ m) = ground (arith, holding-others o p t m)

-- The tokens that `join` gathers from the owner's leases, in order.
unfoldable pub gathered : Owner → List ℤ → Map LeaseId Lease → List ℤ
gathered o held [] = held
gathered o held ((i, l) ∷ m) =
    let more = gathered o (join held l.tokens) m in
    let same = gathered o held m in ite (Owner-discrete l.owner o) more same

-- What the loop of `SetOwnerTokens` leaves: the owner's leases are gone, and nothing else changes.
pub record Collected (o : Owner) (held : List ℤ) (left : Map LeaseId Lease) (c : Coordinator)
    (r : List ℤ × Coordinator) : Type 0 where
  pub tokens : r.0 ≡ held
  pub leases : r.1.leases ≡ left
  pub order : r.1.lease_order ≡ keys left
  pub counts : r.1.counts ≡ c.counts
  pub seq : r.1.lease_seq ≡ c.lease_seq

collect_suffix :
    (o : Owner) (pre suf : Map LeaseId Lease) (held : List ℤ) (c : Coordinator)
    → Unique LeaseId-discrete (pre ++ suf)
    → c.leases ≡ pre ++ suf
    → c.lease_order ≡ keys (pre ++ suf)
    → Collected o (gathered o held suf) (pre ++ others o suf) c (collect o (keys suf) held c)
unfolding collect gathered others remove_lease
collect_suffix o pre [] held c u e f = record {
  tokens = refl;
  leases = e;
  order = f;
  counts = refl;
  seq = refl;
}
collect_suffix o pre ((i, l) ∷ suf) held c u e f =
    let found = ap (get LeaseId-discrete i) e ∙ get-middle LeaseId-discrete i l pre suf u in
    let gone = delete-middle LeaseId-discrete i l pre suf u in
    let all = pre ++ (i, l) ∷ suf in
    elim (Owner-discrete l.owner o) [
      | yes mine ↦
          let rest =
            collect_suffix o pre suf (join held l.tokens) (remove_lease i c)
              (subst (Unique LeaseId-discrete) gone (delete-Unique LeaseId-discrete i all u))
              (ap (delete LeaseId-discrete i) e ∙ gone)
              (ap (remove LeaseId-discrete i) f
                ∙ sym (keys-delete LeaseId-discrete i all u)
                ∙ ap keys gone) in
          ground (arith, found, rest)
      | no other ↦
          let shift = append_assoc pre ((i, l) ∷ []) suf in
          let rest =
            collect_suffix o (pre ++ (i, l) ∷ []) suf held c
              (subst (Unique LeaseId-discrete) (sym shift) u) (e ∙ sym shift)
              (f ∙ ap keys (sym shift)) in
          ground (arith, found, rest, append_assoc pre ((i, l) ∷ []) (others o suf))
    ]

-- All of the owner's leases are removed, each of their tokens is gathered, and nothing else changes.
pub collect_lem :
    (o : Owner) (c : Coordinator)
    → Unique LeaseId-discrete c.leases
    → c.lease_order ≡ keys c.leases
    → Collected o (gathered o [] c.leases) (others o c.leases) c (collect o c.lease_order [] c)
collect_lem o c u f =
    subst
      (λ order. Collected o (gathered o [] c.leases) (others o c.leases) c (collect o order [] c))
      (sym f) (collect_suffix o [] c.leases [] c u refl f)
