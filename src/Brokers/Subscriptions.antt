-- ===== src/Brokers/Subscriptions.antt =====
-- internal/brokers/subscriptions.go: the reference-counted subscription table of one lane.
-- A locked section of a method is a function from the table to the new table and the calls that it
-- makes on the transport. The string id of a lease, "owner:7" or "owner:set", is `LeaseId`; a set
-- of tokens (`map[int64]struct{}`) is a list.
pub mod Counting
pub mod Leases
pub mod Sets
pub mod Invariant
pub mod Replace
pub mod History
pub mod Transport
pub mod Refinement
pub mod Promises
mod Tests
pub mod Status
use mathlib.Core.Option
use cal_spread_backend.Base.{
  ℕ, ◌+◌, ◌-◌, Bool, true, false, Option, none, some, List, [], ◌∷◌, ◌++◌, ite, ltb, ◌==◌,
  if◌then◌else◌, length, is_empty, mem, remove, ℕ_discrete,
}
use cal_spread_backend.Base.Int.{ℤ, ℤ-discrete, is_nonpositive}
use cal_spread_backend.Base.Maps.{Map, get, put, delete}

pub data Owner : Type 0 where
  browser scanner strategy analytics : Owner

unfoldable pub Owner-discrete : Discrete Owner
Owner-discrete = hlevel

pub record Counts : Type 0 where
  pub browser : ℕ
  pub scanner : ℕ
  pub strategy : ℕ
  pub analytics : ℕ
  pub total : ℕ

abbrev pub no_counts : Counts
no_counts = record { browser = 0; scanner = 0; strategy = 0; analytics = 0; total = 0 }

-- What `ptr` points to.
abbrev pub count : Owner → Counts → ℕ
count Owner.browser c = c.browser
count Owner.scanner c = c.scanner
count Owner.strategy c = c.strategy
count Owner.analytics c = c.analytics

-- A write through `ptr`.
abbrev pub set_count : Owner → ℕ → Counts → Counts
set_count Owner.browser n c = record c { browser = n }
set_count Owner.scanner n c = record c { scanner = n }
set_count Owner.strategy n c = record c { strategy = n }
set_count Owner.analytics n c = record c { analytics = n }

pub data LeaseId : Type 0 where
  acquired : Owner → ℕ → LeaseId
  owner_set : Owner → LeaseId

unfoldable pub LeaseId-discrete : Discrete LeaseId
LeaseId-discrete = hlevel ℕ_discrete

pub record Lease : Type 0 where
  pub owner : Owner
  pub tokens : List ℤ

-- A call on the transport.
pub data Call : Type 0 where
  subscribe_tokens : List ℤ → Call
  unsubscribe_tokens : List ℤ → Call

pub record Coordinator : Type 0 where
  pub counts : Map ℤ Counts
  pub leases : Map LeaseId Lease
  pub lease_order : List LeaseId
  pub lease_seq : ℕ

pub new_coordinator : Coordinator
new_coordinator = record { counts = []; leases = []; lease_order = []; lease_seq = 0 }

-- The loop of `distinctValid`.
distinct_from : List ℤ → List ℤ → List ℤ
distinct_from seen [] = []
distinct_from seen (t ∷ ts) =
    let next = t ∷ distinct_from (t ∷ seen) ts in
    let skip = distinct_from seen ts in
    if is_nonpositive t then skip else if mem ℤ-discrete t seen then skip else next

pub distinct_valid : List ℤ → List ℤ
unfolding distinct_from
distinct_valid ts = distinct_from [] ts

-- `c.counts[t]`, with the zero counts for a missing entry.
pub counts_of : ℤ → Map ℤ Counts → Counts
counts_of t m = Option.get_or (get ℤ-discrete t m) no_counts

abbrev raise : Owner → Counts → Counts
raise o e = let c = set_count o (count o e + 1) e in record c { total = c.total + 1 }

-- The counting loop of `Acquire` and of `SetOwnerTokens`: the table, and the tokens that nobody held.
pub hold : Owner → List ℤ → Map ℤ Counts → Map ℤ Counts × List ℤ
hold o [] m = (m, [])
hold o (t ∷ ts) m =
    let e = counts_of t m in
    let (m', sub) = hold o ts (put ℤ-discrete t (raise o e) m) in
    (m', if e.total == 0 then t ∷ sub else sub)

-- Both counts stop at 0, as truncated subtraction does.
abbrev lower : Owner → Counts → Counts
lower o e = let c = set_count o (count o e - 1) e in record c { total = c.total - 1 }

pub dec : ℤ → Owner → Map ℤ Counts → Map ℤ Counts × Bool
dec t o m = elim (get ℤ-discrete t m) [
  | none ↦ (m, false)
  | some e ↦
      let e' = lower o e in
      if e'.total == 0 then (delete ℤ-discrete t m, true) else (put ℤ-discrete t e' m, false)
]

-- The loop of `releaseLease`: the table, and the tokens that nobody holds any more.
pub let_go : Owner → List ℤ → Map ℤ Counts → Map ℤ Counts × List ℤ
let_go o [] m = (m, [])
let_go o (t ∷ ts) m =
    let (m₁, gone) = dec t o m in
    let (m₂, unsub) = let_go o ts m₁ in (m₂, if gone then t ∷ unsub else unsub)

pub add_lease : LeaseId → Lease → Coordinator → Coordinator
add_lease i l c = record c {
  leases = put LeaseId-discrete i l leases;
  lease_order = elim (get LeaseId-discrete i leases) [
    | none ↦ lease_order ++ i ∷ []
    | some _ ↦ lease_order
  ];
}
  where
    open c use {leases, lease_order}

pub remove_lease : LeaseId → Coordinator → Coordinator
remove_lease i c = record c {
  leases = delete LeaseId-discrete i c.leases;
  lease_order = remove LeaseId-discrete i c.lease_order;
}

-- A call with no tokens is not made.
abbrev pub subscribes : List ℤ → List Call
subscribes [] = []
subscribes (t ∷ ts) = subscribe_tokens (t ∷ ts) ∷ []

abbrev pub unsubscribes : List ℤ → List Call
unsubscribes [] = []
unsubscribes (t ∷ ts) = unsubscribe_tokens (t ∷ ts) ∷ []

-- The locked section of `Acquire`, with the id of the lease that it returns.
pub acquire_locked : Owner → List ℤ → Coordinator → Coordinator × List Call × LeaseId
unfolding hold add_lease
acquire_locked o unique c =
    let i = acquired o (c.lease_seq + 1) in
    let (m, sub) = hold o unique c.counts in
    let c' = add_lease i (record { owner = o; tokens = unique }) c in
    (record c' { counts = m; lease_seq = c.lease_seq + 1 }, subscribes sub, i)

-- `releaseLease`.
pub release_lease : LeaseId → Coordinator → Coordinator × List Call
unfolding let_go remove_lease
release_lease i c = elim (get LeaseId-discrete i c.leases) [
  | none ↦ (c, [])
  | some l ↦
      let (m, unsub) = let_go l.owner l.tokens c.counts in
      let c' = remove_lease i c in (record c' { counts = m }, unsubscribes unsub)
]

-- The tokens of a lease that are not yet held, in order.
pub join : List ℤ → List ℤ → List ℤ
join held [] = held
join held (t ∷ ts) = join (if mem ℤ-discrete t held then held else held ++ t ∷ []) ts

-- The loop of `SetOwnerTokens` over the lease order as it was: the owner's tokens, and the
-- coordinator without the owner's leases.
pub collect : Owner → List LeaseId → List ℤ → Coordinator → List ℤ × Coordinator
collect o [] held c = (held, c)
collect o (i ∷ is) held c = elim (get LeaseId-discrete i c.leases) [
  | none ↦ collect o is held c
  | some l ↦
      let skip = collect o is held c in
      let take = collect o is (join held l.tokens) (remove_lease i c) in
      ite (Owner-discrete l.owner o) take skip
]

-- The elements of the first list that are not in the second.
pub minus : List ℤ → List ℤ → List ℤ
minus [] ys = []
minus (x ∷ xs) ys = if mem ℤ-discrete x ys then minus xs ys else x ∷ minus xs ys

-- `SetOwnerTokens` after its loop over the leases: the owner held these tokens.
pub replace_held : Owner → List ℤ → List ℤ × Coordinator → Coordinator × List Call
replace_held o want (held, c₁) =
    let (m₁, unsub) = let_go o (minus held want) c₁.counts in
    let (m₂, sub) = hold o (minus want held) m₁ in
    let c₂ = record c₁ { counts = m₂ } in
    let c₃ = add_lease (owner_set o) (record { owner = o; tokens = want }) c₂ in
    (if is_empty want then c₂ else c₃, unsubscribes unsub ++ subscribes sub)

-- The locked section of `SetOwnerTokens`.
pub set_owner_locked : Owner → List ℤ → Coordinator → Coordinator × List Call
unfolding collect replace_held hold let_go add_lease
set_owner_locked o want c = replace_held o want (collect o c.lease_order [] c)

-- Nothing is sent.
pub reset_for_broker_switch : Coordinator → Coordinator × ℕ × ℕ
reset_for_broker_switch c =
    (record c { counts = []; leases = []; lease_order = [] }, length c.counts, length c.leases)

pub owns : Owner → ℤ → Coordinator → Bool
owns o t c = elim (get ℤ-discrete t c.counts) [ none ↦ false | some e ↦ ltb 0 (count o e) ]

unfoldable pub size : Coordinator → ℕ
size c = length c.counts

unfoldable pub counts_for : ℤ → Coordinator → Option Counts
counts_for t c = get ℤ-discrete t c.counts

-- The tokens that must stay: those to be acquired, and those that an owner other than the
-- analytics (and, when it replaces its whole set, other than the caller) holds.
pub priority_from : Owner → Bool → Map ℤ Counts → List ℤ
priority_from o replacing [] = []
priority_from o replacing ((t, e) ∷ m) =
    let other = e.total - e.analytics in
    let left = if replacing then other - count o e else other in
    let rest = priority_from o replacing m in if ltb 0 left then t ∷ rest else rest

-- The handler that the analytics owner installs: it is given the tokens that must stay, and calls
-- the coordinator.
abbrev pub Handler : Type 0
Handler = List ℤ → Coordinator → Coordinator × List Call

abbrev is_analytics : Owner → Bool
is_analytics Owner.analytics = true
is_analytics _ = false

pub yield_analytics : Option Handler → Owner → List ℤ → Bool → Coordinator → Coordinator × List Call
unfolding priority_from
yield_analytics none o ts replacing c = (c, [])
yield_analytics (some h) o ts replacing c =
    let stay = ts ++ priority_from o replacing c.counts in
    if is_analytics o then (c, []) else h stay c

pub acquire : Option Handler → Owner → List ℤ → Coordinator → Coordinator × List Call × LeaseId
unfolding distinct_valid distinct_from yield_analytics acquire_locked
acquire handler o tokens c =
    let unique = distinct_valid tokens in
    let (c₁, before) = yield_analytics handler o unique false c in
    let (c₂, sent, i) = acquire_locked o unique c₁ in (c₂, before ++ sent, i)

pub set_owner_tokens : Option Handler → Owner → List ℤ → Coordinator → Coordinator × List Call
unfolding distinct_valid distinct_from yield_analytics set_owner_locked
set_owner_tokens handler o tokens c =
    let want = distinct_valid tokens in
    let (c₁, before) = yield_analytics handler o want true c in
    let (c₂, sent) = set_owner_locked o want c₁ in (c₂, before ++ sent)
