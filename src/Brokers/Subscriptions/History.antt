-- ===== src/Brokers/Subscriptions/History.antt =====
-- subscriptions.go over any sequence of its locked sections. Each section holds the mutex, so any
-- interleaving of the methods, the handler's calls included, is such a sequence.
use cal_spread_backend.Base.{
  ◌+◌, ◌≤◌, ◌≡◌, refl, true, false, Bool, List, [], ◌∷◌, arith, All, none, Option-cases, inl, inr,
  subst, sym,
}
use cal_spread_backend.Base.Int.{ℤ, pos}
use cal_spread_backend.Base.Maps.{Map, get}
use cal_spread_backend.Base.Keys.{Unique, put-All, delete-All}
use cal_spread_backend.Brokers.Subscriptions.{
  Owner, Lease, LeaseId, acquired, owner_set, LeaseId-discrete, Coordinator, Call, distinct_valid,
  new_coordinator, acquire_locked, release_lease, set_owner_locked, reset_for_broker_switch,
  add_lease, remove_lease,
}
use cal_spread_backend.Brokers.Subscriptions.Leases.{holding}
use cal_spread_backend.Brokers.Subscriptions.Sets.{distinct_valid_lem}
use cal_spread_backend.Brokers.Subscriptions.Invariant.{
  Inv, IsLease, new_coordinator-Inv, acquire_locked-Inv, release_lease-Inv,
}
use cal_spread_backend.Brokers.Subscriptions.Replace.{
  set_owner_locked_lem, set_owner_locked-Inv, others-All, settled,
}

pub data Section : Type 0 where
  acquires : Owner → List ℤ → Section
  releases : LeaseId → Section
  replaces : Owner → List ℤ → Section
  resets : Section

unfoldable pub step : Section → Coordinator → Coordinator × List Call
unfolding acquire_locked release_lease set_owner_locked
step (acquires o ts) c = let (c', sent, i) = acquire_locked o (distinct_valid ts) c in (c', sent)
step (releases i) c = release_lease i c
step (replaces o ts) c = set_owner_locked o (distinct_valid ts) c
step resets c = ((reset_for_broker_switch c).0, [])

unfoldable pub run : List Section → Coordinator → Coordinator
run [] c = c
run (s ∷ ss) c = run ss (step s c).0

-- Which owners replace their whole set: the others acquire leases. (The browser acquires, the
-- scanner, the strategies and the analytics replace.)
abbrev pub Style : Type 0
Style = Owner → Bool

-- An owner keeps to one of the two ways.
abbrev pub Follows : Style → Section → Type 0
Follows style (acquires o ts) = style o ≡ false
Follows style (releases i) = Unit {0}
Follows style (replaces o ts) = style o ≡ true
Follows style resets = Unit {0}

abbrev StyledId : Style → LeaseId → Type 0
StyledId style (acquired o n) = style o ≡ false
StyledId style (owner_set o) = style o ≡ true

abbrev pub IsStyled : Style → LeaseId × Lease → Type 0
IsStyled style e = StyledId style e.0

-- An owner that replaces its whole set has no token in two leases.
not_holding :
    (style : Style) (o : Owner) (t : ℤ) (m : Map LeaseId Lease)
    → All IsLease m
    → All (IsStyled style) m
    → style o ≡ true
    → get LeaseId-discrete (owner_set o) m ≡ none
    → holding o t m ≡ 0
unfolding holding get
not_holding style o t [] w s h e = refl
not_holding style o t ((acquired p n, l) ∷ m) w s h e =
    ground (arith, not_holding style o t m w.1 s.1 h)
not_holding style o t ((owner_set p, l) ∷ m) w s h e =
    ground (arith, not_holding style o t m w.1 s.1 h)

pub holding-le-one :
    (style : Style) (o : Owner) (t : ℤ) (m : Map LeaseId Lease)
    → All IsLease m
    → All (IsStyled style) m
    → Unique LeaseId-discrete m
    → style o ≡ true
    → holding o t m ≤ 1
unfolding holding
holding-le-one style o t [] w s u h = omega arith
holding-le-one style o t ((acquired p n, l) ∷ m) w s u h =
    ground (arith, holding-le-one style o t m w.1 s.1 u.1 h)
holding-le-one style o t ((owner_set p, l) ∷ m) w s u h =
    ground (arith, holding-le-one style o t m w.1 s.1 u.1 h, not_holding style o t m w.1 s.1 h)

settled-IsStyled :
    (style : Style) (o : Owner) (want : List ℤ) (c : Coordinator)
    → All (IsStyled style) c.leases
    → style o ≡ true
    → All (IsStyled style) (settled o want c).leases
unfolding add_lease
settled-IsStyled style o [] c s h = others-All (IsStyled style) o c.leases s
settled-IsStyled style o (w ∷ ws) c s h =
    put-All LeaseId-discrete (IsStyled style) (owner_set o) _ _ h
      (others-All (IsStyled style) o c.leases s)

pub step-IsStyled :
    (style : Style) (s : Section) (c : Coordinator)
    → Inv c
    → Follows style s
    → All (IsStyled style) c.leases
    → All (IsStyled style) (step s c).0.leases
unfolding step acquire_locked release_lease reset_for_broker_switch remove_lease add_lease
step-IsStyled style (acquires o ts) c v f s =
    put-All LeaseId-discrete (IsStyled style) (acquired o (c.lease_seq + 1)) _ c.leases f s
step-IsStyled style (releases i) c v f s = elim (Option-cases (get LeaseId-discrete i c.leases)) [
  | inl e ↦ rw (e, release_lease) s
  | inr (l, e) ↦ rw (e, release_lease) (delete-All LeaseId-discrete (IsStyled style) i c.leases s)
]
step-IsStyled style (replaces o ts) c v f s =
    let want = distinct_valid ts in
    subst (λ (r : Coordinator × List Call). All (IsStyled style) r.0.leases)
      (sym (set_owner_locked_lem o want c v)) (settled-IsStyled style o want c s f)
step-IsStyled style resets c v f s = tt

reset-Inv : (c : Coordinator) → Inv (reset_for_broker_switch c).0
unfolding reset_for_broker_switch new_coordinator get
reset-Inv c = record {
  counted = new_coordinator-Inv.counted;
  accounted = new_coordinator-Inv.accounted;
  unique = tt;
  ordered = refl;
  wellformed = tt;
  numbered = λ o n h. refl;
}

-- Every locked section keeps the counts in agreement with the leases.
pub step-Inv :
    (style : Style) (s : Section) (c : Coordinator)
    → Inv c
    → Follows style s
    → All (IsStyled style) c.leases
    → Inv (step s c).0
unfolding step
step-Inv style (acquires o ts) c v f s =
    acquire_locked-Inv o (distinct_valid ts) c v (distinct_valid_lem (pos 0) ts).1
step-Inv style (releases i) c v f s = release_lease-Inv i c v
step-Inv style (replaces o ts) c v f s =
    set_owner_locked-Inv o (distinct_valid ts) c v (distinct_valid_lem (pos 0) ts).1
      (λ t. holding-le-one style o t c.leases v.wellformed s v.unique f)
step-Inv style resets c v f s = reset-Inv c

pub run-both :
    (style : Style) (ss : List Section) (c : Coordinator)
    → Inv c
    → All (IsStyled style) c.leases
    → All (Follows style) ss
    → Inv (run ss c) × All (IsStyled style) (run ss c).leases
unfolding run
run-both style [] c v s f = (v, s)
run-both style (x ∷ xs) c v s f =
    run-both style xs (step x c).0 (step-Inv style x c v f.0 s) (step-IsStyled style x c v f.0 s)
      f.1

-- If each owner keeps to one of the two ways, then after any sequence of locked sections, broker
-- switches included, every owner's count of every token is the number of its leases that have the
-- token, and every stored total is the positive sum of the owners' counts.
pub run-Inv :
    (style : Style) (ss : List Section) → All (Follows style) ss → Inv (run ss new_coordinator)
unfolding new_coordinator
run-Inv style ss f = (run-both style ss new_coordinator new_coordinator-Inv tt f).0
