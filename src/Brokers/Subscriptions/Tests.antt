-- ===== src/Brokers/Subscriptions/Tests.antt =====
-- Concrete runs of the subscription table.
use cal_spread_backend.Base.{
  ◌≡◌, ◌≢◌, refl, true, false, none, some, List, [], ◌∷◌, not, ◌&&◌, arith, All, mem, ℕ_discrete,
}
use cal_spread_backend.Base.Int.{ℤ, pos, negsuc, ℤ-discrete, is_nonpositive}
use cal_spread_backend.Base.Maps.{get, put}
use cal_spread_backend.Brokers.Subscriptions.{
  Owner, acquired, LeaseId-discrete, Coordinator, count, counts_of, new_coordinator, acquire,
  set_owner_tokens, release_lease, set_owner_locked, owns, acquire_locked, distinct_valid,
  Owner-discrete,
}
use cal_spread_backend.Brokers.Subscriptions.Leases.{holding}
use cal_spread_backend.Brokers.Subscriptions.Sets.{has}
use cal_spread_backend.Brokers.Subscriptions.Invariant.{Inv, new_coordinator-Inv}
use cal_spread_backend.Brokers.Subscriptions.History.{
  Section, acquires, releases, replaces, resets, Style, Follows, step, holding-le-one, IsStyled,
  run-both, run, run-Inv,
}
use cal_spread_backend.Brokers.Subscriptions.Transport.{Mirrors}
use cal_spread_backend.Brokers.Subscriptions.Refinement.{upstream_run, run-Mirrors}
use cal_spread_backend.Brokers.Subscriptions.Promises.{
  set_owner_tokens_lem, acquire_lem, release_lease_twice, set_owner_locked_leak,
}

-- The browser acquires, the other owners replace.
abbrev app_style : Style
app_style Owner.browser = false
app_style _ = true

abbrev day : List Section
day =
    acquires Owner.browser (pos 5 ∷ pos 7 ∷ pos 5 ∷ negsuc 0 ∷ [])
    ∷ replaces Owner.scanner (pos 7 ∷ pos 9 ∷ [])
    ∷ replaces Owner.scanner (pos 9 ∷ [])
    ∷ releases (acquired Owner.browser 1)
    ∷ resets
    ∷ releases (acquired Owner.browser 1)
    ∷ acquires Owner.browser (pos 5 ∷ [])
    ∷ []

day-Follows : All (Follows app_style) day
day-Follows = (refl, (refl, (refl, (tt, (tt, (tt, (refl, tt)))))))

run-Inv_example : Inv (run day new_coordinator)
run-Inv_example = run-Inv app_style day day-Follows

run-Mirrors_example :
    (up : List ℤ) × (upstream_run day [] new_coordinator ≡ some up)
    × Mirrors up (run day new_coordinator).counts
run-Mirrors_example = run-Mirrors app_style day day-Follows

abbrev scanning : List Section
scanning = acquires Owner.browser (pos 7 ∷ []) ∷ replaces Owner.scanner (pos 7 ∷ pos 9 ∷ []) ∷ []

abbrev scanned : Coordinator
scanned = run scanning new_coordinator

scanned_valid : Inv scanned × All (IsStyled app_style) scanned.leases
scanned_valid =
    run-both app_style scanning new_coordinator new_coordinator-Inv (unfold new_coordinator in tt)
      (refl, (refl, tt))

set_owner_tokens_lem_example :
    ((t : ℤ)
      → owns Owner.scanner t (set_owner_tokens none Owner.scanner (pos 9 ∷ negsuc 4 ∷ []) scanned).0
        ≡ (has t (pos 9 ∷ negsuc 4 ∷ []) && not (is_nonpositive t)))
    × ((p : Owner) (t : ℤ)
        → p ≢ Owner.scanner
        → count p (
            counts_of t
              (set_owner_tokens none Owner.scanner (pos 9 ∷ negsuc 4 ∷ []) scanned).0.counts)
          ≡ count p (counts_of t scanned.counts))
set_owner_tokens_lem_example =
    set_owner_tokens_lem Owner.scanner (pos 9 ∷ negsuc 4 ∷ []) scanned scanned_valid.0 (λ t.
      holding-le-one app_style Owner.scanner t scanned.leases scanned_valid.0.wellformed
        scanned_valid.1 scanned_valid.0.unique refl)

acquire_lem_example :
    get LeaseId-discrete (acquire none Owner.browser (pos 9 ∷ []) scanned).2 scanned.leases ≡ none
acquire_lem_example = (acquire_lem Owner.browser (pos 9 ∷ []) scanned scanned_valid.0).2

release_lease_twice_example :
    release_lease (acquired Owner.browser 1) (release_lease (acquired Owner.browser 1) scanned).0
    ≡ ((release_lease (acquired Owner.browser 1) scanned).0, [])
release_lease_twice_example = release_lease_twice (acquired Owner.browser 1) scanned

abbrev doubled : List Section
doubled = acquires Owner.browser (pos 5 ∷ []) ∷ acquires Owner.browser (pos 5 ∷ []) ∷ []

set_owner_locked_leak_example :
    (owns Owner.browser (pos 5) (set_owner_locked Owner.browser [] (run doubled new_coordinator)).0
      ≡ true)
    × (holding Owner.browser
          (pos 5)
          (set_owner_locked Owner.browser [] (run doubled new_coordinator)).0.leases
        ≡ 0)
unfolding run step new_coordinator holding acquire_locked distinct_valid put get mem ℤ-discrete
    ℕ_discrete Owner-discrete LeaseId-discrete
set_owner_locked_leak_example =
    set_owner_locked_leak Owner.browser [] (run doubled new_coordinator) (pos 5)
      (run-Inv app_style doubled (refl, (refl, tt))) tt (omega arith) refl
