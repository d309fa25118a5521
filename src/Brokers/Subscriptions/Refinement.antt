-- ===== src/Brokers/Subscriptions/Refinement.antt =====
-- subscriptions.go against what its comments promise: the transport hears the first holder and the
-- last, a second release does nothing, and an owner's set is what it asked for.
use mathlib.Core.List.{append-nil}
use cal_spread_backend.Base.{
  ◌≡◌, refl, sym, ap, ◌∙◌, subst, Option, none, some, List, [], ◌∷◌, ◌++◌, arith, mem, Option-cases,
  inl, inr, All,
}
use cal_spread_backend.Base.Int.{ℤ}
use cal_spread_backend.Base.Maps.{get}
use cal_spread_backend.Base.Keys.{All-get}
use cal_spread_backend.Brokers.Subscriptions.{
  Owner, LeaseId, LeaseId-discrete, Coordinator, Call, counts_of, hold, let_go, minus, subscribes,
  unsubscribes, add_lease, remove_lease, distinct_valid, new_coordinator, acquire_locked,
  release_lease, set_owner_locked, reset_for_broker_switch,
}
use cal_spread_backend.Brokers.Subscriptions.Sets.{minus-Distinct}
use cal_spread_backend.Brokers.Subscriptions.Invariant.{
  Inv, IsLease, release_Holds, held_by, held_by-Distinct, set_Holds, new_coordinator-Inv,
}
use cal_spread_backend.Brokers.Subscriptions.Replace.{settled, set_owner_locked_lem}
use cal_spread_backend.Brokers.Subscriptions.History.{
  Section, acquires, releases, replaces, resets, step, run, Style, Follows, IsStyled, step-Inv,
  step-IsStyled,
}
use cal_spread_backend.Brokers.Subscriptions.Transport.{
  subscribe_each, unsubscribe_each, replay, Mirrors, hold-Mirrors, let_go-Mirrors,
}

replay-subscribes :
    (ts up up' : List ℤ) → subscribe_each ts up ≡ some up' → replay (subscribes ts) up ≡ some up'
unfolding replay
replay-subscribes [] up up' h = h
replay-subscribes (t ∷ ts) up up' h = ground (arith, h)

replay-unsubscribes :
    (ts up up' : List ℤ) (cs : List Call)
    → unsubscribe_each ts up ≡ some up'
    → replay (unsubscribes ts ++ cs) up ≡ replay cs up'
unfolding replay
replay-unsubscribes [] up up' cs h = ground (arith, h)
replay-unsubscribes (t ∷ ts) up up' cs h = ground (arith, h)

-- What the upstream becomes: the calls are all transitions, and it holds what the table holds.
abbrev pub Keeps : List ℤ → Coordinator × List Call → Type 0
Keeps up r = (up' : List ℤ) × (replay r.1 up ≡ some up') × Mirrors up' r.0.counts

acquire_Keeps :
    (o : Owner) (unique : List ℤ) (c : Coordinator) (up : List ℤ)
    → Mirrors up c.counts
    → let r = acquire_locked o unique c in Keeps up (r.0, r.1)
unfolding acquire_locked add_lease
acquire_Keeps o unique c up r =
    let (up', e, r') = hold-Mirrors o unique c.counts up r in
    (up', replay-subscribes (hold o unique c.counts).1 up up' e, r')

release_Keeps :
    (i : LeaseId) (c : Coordinator) (up : List ℤ)
    → Inv c
    → Mirrors up c.counts
    → Keeps up (release_lease i c)
unfolding release_lease remove_lease
release_Keeps i c up v r = elim (Option-cases (get LeaseId-discrete i c.leases)) [
  | inl e ↦ rw (e, release_lease) (up, unfold replay in refl, r)
  | inr (l, e) ↦
      let ok = All-get LeaseId-discrete IsLease i l c.leases v.wellformed e in
      let (up', p, r') =
        let_go-Mirrors l.owner l.tokens c.counts up r v.counted ok.0 (release_Holds i l c v e) in
      let calls = unsubscribes (let_go l.owner l.tokens c.counts).1 in
      rw (e, release_lease)
        (
          up',
          ap (λ cs. replay cs up) (sym (append-nil calls))
              ∙ replay-unsubscribes (let_go l.owner l.tokens c.counts).1 up up' [] p
              ∙ (unfold replay in refl),
          r',
        )
]

settled-counts :
    (o : Owner) (want : List ℤ) (c : Coordinator)
    → (settled o want c).counts
      ≡ (hold o (minus want (held_by o c)) (let_go o (minus (held_by o c) want) c.counts).0).0
unfolding add_lease
settled-counts o [] c = refl
settled-counts o (w ∷ ws) c = refl

replace_Keeps :
    (o : Owner) (want : List ℤ) (c : Coordinator) (up : List ℤ)
    → Inv c
    → Mirrors up c.counts
    → Keeps up (set_owner_locked o want c)
replace_Keeps o want c up v r =
    let held = held_by o c in
    let (up₁, p, r₁) =
      let_go-Mirrors o (minus held want) c.counts up r v.counted
        (minus-Distinct held want (held_by-Distinct o c)) (set_Holds o want c v) in
    let (up₂, q, r₂) =
      hold-Mirrors o (minus want held) (let_go o (minus held want) c.counts).0 up₁ r₁ in
    subst (Keeps up) (sym (set_owner_locked_lem o want c v)) (
      up₂,
      replay-unsubscribes _ up up₁ _ p ∙ replay-subscribes _ up₁ up₂ q,
      subst (Mirrors up₂) (sym (settled-counts o want c)) r₂,
    )

-- The upstream of the new broker starts empty.
pub upstream : Section → List ℤ → Coordinator → Option (List ℤ)
upstream resets up c = some []
upstream (acquires o ts) up c = replay (step (acquires o ts) c).1 up
upstream (releases i) up c = replay (step (releases i) c).1 up
upstream (replaces o ts) up c = replay (step (replaces o ts) c).1 up

pub step-Mirrors :
    (s : Section) (c : Coordinator) (up : List ℤ)
    → Inv c
    → Mirrors up c.counts
    → (up' : List ℤ) × (upstream s up c ≡ some up') × Mirrors up' (step s c).0.counts
unfolding upstream step
step-Mirrors (acquires o ts) c up v r = acquire_Keeps o (distinct_valid ts) c up r
step-Mirrors (releases i) c up v r = release_Keeps i c up v r
step-Mirrors (replaces o ts) c up v r = replace_Keeps o (distinct_valid ts) c up v r
step-Mirrors resets c up v r =
    ([], refl, unfold reset_for_broker_switch counts_of get mem in (λ t. refl))

pub upstream_run : List Section → List ℤ → Coordinator → Option (List ℤ)
unfolding upstream
upstream_run [] up c = some up
upstream_run (s ∷ ss) up c = elim (upstream s up c) [
  | none ↦ none
  | some up' ↦ upstream_run ss up' (step s c).0
]

run-Mirrors_from :
    (style : Style) (ss : List Section) (c : Coordinator) (up : List ℤ)
    → Inv c
    → All (IsStyled style) c.leases
    → All (Follows style) ss
    → Mirrors up c.counts
    → (up' : List ℤ) × (upstream_run ss up c ≡ some up') × Mirrors up' (run ss c).counts
unfolding upstream_run run
run-Mirrors_from style [] c up v s f r = (up, refl, r)
run-Mirrors_from style (x ∷ xs) c up v s f r =
    let (up₁, e, r₁) = step-Mirrors x c up v r in
    let (up₂, e', r₂) =
      run-Mirrors_from style xs (step x c).0 up₁ (step-Inv style x c v f.0 s)
        (step-IsStyled style x c v f.0 s) f.1 r₁ in
    (up₂, rw (e, upstream_run) e', r₂)

-- If each owner keeps to one of the two ways, then over any sequence of locked sections from the
-- empty table the transport never hears a subscription of a token that is already subscribed nor an
-- unsubscription of one that is not, and in the end exactly the tokens that somebody holds are
-- subscribed. (A broker switch starts from an empty upstream.)
pub run-Mirrors :
    (style : Style) (ss : List Section)
    → All (Follows style) ss
    → (up : List ℤ) × (upstream_run ss [] new_coordinator ≡ some up)
      × Mirrors up (run ss new_coordinator).counts
unfolding new_coordinator
run-Mirrors style ss f =
    run-Mirrors_from style ss new_coordinator [] new_coordinator-Inv tt f
      (unfold counts_of get mem in (λ t. refl))
