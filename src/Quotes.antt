-- ===== src/Quotes.antt =====
-- internal/quotes/quotes.go: the store of executable books, and the store of spot values.
pub mod Sanitize
pub mod Kept
pub mod Versions
pub mod Strikes
pub mod Tests
use mathlib.Core.Option
use cal_spread_backend.Base.{
  ℕ, zero, suc, ◌+◌, ◌-◌, Bool, true, false, ◌&&◌, ◌||◌, not, String, Option, none, some, List, [],
  ◌∷◌, ◌++◌, leb, ltb, if◌then◌else◌, is_some, is_empty, length, remove, ℕ_discrete,
}
use cal_spread_backend.Base.Int.{ℤ, ℤ-discrete}
use cal_spread_backend.Base.Maps.{Map, get, put, delete}
use cal_spread_backend.Base.Float.{Float64}
use cal_spread_backend.Spike.Quote.{DepthLevel, Tick, set_and_true}

pub record Quote (Num : Type 0) : Type 0 where
  pub token : ℤ
  pub bid : Num
  pub bid_qty : Num
  pub ask : Num
  pub ask_qty : Num
  pub last : Num
  pub bids : List (DepthLevel Num)
  pub asks : List (DepthLevel Num)
  pub version : ℕ
  pub at : ℕ
  pub exchange_at : Option ℕ
  pub source : String

pub record Diagnostics : Type 0 where
  pub authoritative_observations : ℕ
  pub usable_book_updates : ℕ
  pub depthless_ignored : ℕ
  pub empty_invalidations : ℕ
  pub malformed_levels_dropped : ℕ
  pub generation_invalidations : ℕ
  pub ready_books : ℕ

-- A listener is the number under which it was subscribed: the source compares pointers.
pub record Store (Num : Type 0) : Type 0 where
  pub quotes : Map ℤ (Quote Num)
  pub updates : ℕ
  pub last_update : Option ℕ
  pub next_version : ℕ
  pub listeners : List ℕ
  pub next_listener : ℕ
  pub diag : Diagnostics

module _ {A : Type 0} where
  -- The stable sort of Go's library by a test for "before".
  unfoldable pub insert : (A → A → Bool) → A → List A → List A
  insert before x [] = x ∷ []
  insert before x (y ∷ ys) =
      let rest = insert before x ys in if before y x then y ∷ rest else x ∷ y ∷ ys

  unfoldable pub sort_stable : (A → A → Bool) → List A → List A
  sort_stable before [] = []
  sort_stable before (x ∷ xs) = insert before x (sort_stable before xs)

  abbrev pub take : ℕ → List A → List A
  take zero xs = []
  take (suc n) [] = []
  take (suc n) (x ∷ xs) = x ∷ take n xs

-- Go's `math.Floor`, and whether a number is its own `math.Trunc` and at most 2^53 - 1 in size.
pub record MathLib (fl : Float64) : Type 0 where
  pub floor : fl.Num → fl.Num
  pub safe_integer : fl.Num → Bool

module _ {Num : Type 0} where
  unfoldable pub new_store : Store Num
  new_store = record {
    quotes = [];
    updates = 0;
    last_update = none;
    next_version = 1;
    listeners = [];
    next_listener = 0;
    diag = record {
      authoritative_observations = 0;
      usable_book_updates = 0;
      depthless_ignored = 0;
      empty_invalidations = 0;
      malformed_levels_dropped = 0;
      generation_invalidations = 0;
      ready_books = 0;
    };
  }

  abbrev pub store_size : Store Num → ℕ
  store_size s = length s.quotes

  abbrev pub diagnostics : Store Num → Diagnostics
  diagnostics s = record s.diag { ready_books = length s.quotes }

  unfoldable pub is_fresh : ℤ → ℕ → ℕ → Store Num → Bool
  is_fresh token max_age now s = elim (get ℤ-discrete token s.quotes) [
    | none ↦ false
    | some q ↦ leb (now - q.at) max_age
  ]

  unfoldable pub subscribe : Store Num → Store Num × ℕ
  subscribe s = (
    record s {
      listeners = s.listeners ++ s.next_listener ∷ [];
      next_listener = s.next_listener + 1;
    },
    s.next_listener,
  )

  unfoldable pub unsubscribe : ℕ → Store Num → Store Num
  unsubscribe id s = record s { listeners = remove ℕ_discrete id s.listeners }

  unfoldable pub forget : List ℤ → Store Num → Store Num
  forget [] s = s
  forget (t ∷ ts) s = forget ts (record s { quotes = delete ℤ-discrete t s.quotes })

  unfoldable pub clear : Store Num → Store Num
  clear s = record s { quotes = []; last_update = none }

  unfoldable pub invalidate_generation : Store Num → Store Num
  invalidate_generation s = clear (record s {
    diag = record s.diag { generation_invalidations = s.diag.generation_invalidations + 1 };
  })

module _ (fl : Float64) (math : MathLib fl) where
  open fl use {Num, le, lt, finite, add, of_nat}

  -- The condition of `sanitize`, negated.
  unfoldable pub usable_level : DepthLevel Num → Bool
  usable_level l =
      finite l.price
      && not (le l.price (of_nat 0))
      && finite l.qty
      && math.safe_integer l.qty
      && not (le l.qty (of_nat 0))

  abbrev pub cleaned : DepthLevel Num → DepthLevel Num
  cleaned l = record l {
    orders = if finite l.orders && le (of_nat 0) l.orders then math.floor l.orders else of_nat 0;
  }

  -- The loop: the valid levels, and how many were dropped.
  unfoldable pub valid_levels : List (DepthLevel Num) → List (DepthLevel Num) × ℕ
  valid_levels [] = ([], 0)
  valid_levels (l ∷ ls) =
      let (valid, dropped) = valid_levels ls in
      if usable_level l then (cleaned l ∷ valid, dropped) else (valid, dropped + 1)

  abbrev pub better : Bool → DepthLevel Num → DepthLevel Num → Bool
  better true a b = lt b.price a.price
  better false a b = lt a.price b.price

  -- An insertion passes every level that the new one, which came before, is not better than or equal to.
  unfoldable pub sanitize : List (DepthLevel Num) → Bool → List (DepthLevel Num) × ℕ
  sanitize levels is_bid =
      let (valid, dropped) = valid_levels levels in
      (take 5 (sort_stable (better is_bid) valid), dropped)

  abbrev pub levels_of : Option (List (DepthLevel Num)) → List (DepthLevel Num)
  levels_of none = []
  levels_of (some ls) = ls

  unfoldable pub authoritative : Tick Num → Bool
  authoritative t = elim t.depth_updated [ some b ↦ b | none ↦ is_some t.bids || is_some t.asks ]

  abbrev pub top_price : List (DepthLevel Num) → Num
  top_price [] = of_nat 0
  top_price (l ∷ ls) = l.price

  -- The quantities at the price, added up from the first.
  unfoldable pub qty_from : Num → Num → List (DepthLevel Num) → Num
  qty_from sum price [] = sum
  qty_from sum price (l ∷ ls) =
      qty_from (if le l.price price && le price l.price then add sum l.qty else sum) price ls

  abbrev pub positive_time : Option ℕ → Option ℕ
  positive_time none = none
  positive_time (some t) = if ltb 0 t then some t else none

  unfoldable pub book_of :
      Tick Num → ℕ → ℕ → List (DepthLevel Num) → List (DepthLevel Num) → Quote Num
  book_of t version at bids asks = record {
    token = t.token;
    bid = top_price bids;
    bid_qty = qty_from (of_nat 0) (top_price bids) bids;
    ask = top_price asks;
    ask_qty = qty_from (of_nat 0) (top_price asks) asks;
    last = if finite t.last_price then t.last_price else of_nat 0;
    bids = bids;
    asks = asks;
    version = version;
    at = at;
    exchange_at = positive_time t.exchange_ts;
    source = "ws";
  }

  -- The counters that every authoritative tick moves.
  unfoldable pub observed : ℕ → ℕ → Store Num → Store Num
  observed at dropped s = record s {
    updates = s.updates + 1;
    last_update = some at;
    next_version = s.next_version + 1;
    diag = record s.diag {
      authoritative_observations = s.diag.authoritative_observations + 1;
      malformed_levels_dropped = s.diag.malformed_levels_dropped + dropped;
    };
  }

  -- The body of the loop of `ApplyTicks` for an authoritative tick.
  unfoldable pub apply_book : ℕ → Tick Num → Store Num → Store Num
  apply_book at t s =
      let (bids, dropped) = sanitize (levels_of t.bids) true in
      let (asks, dropped') = sanitize (levels_of t.asks) false in
      let s₁ = observed at (dropped + dropped') s in
      if is_empty bids && is_empty asks
      then record s₁ {
        quotes = delete ℤ-discrete t.token s₁.quotes;
        diag = record s₁.diag { empty_invalidations = s₁.diag.empty_invalidations + 1 };
      }
      else record s₁ {
        quotes = put ℤ-discrete t.token (book_of t s.next_version at bids asks) s₁.quotes;
        diag = record s₁.diag { usable_book_updates = s₁.diag.usable_book_updates + 1 };
      }

  abbrev pub ignored : Store Num → Store Num
  ignored s = record s { diag = record s.diag { depthless_ignored = s.diag.depthless_ignored + 1 } }

  -- The store after the batch, and the tokens whose book changed.
  unfoldable pub apply_ticks : ℕ → List (Tick Num) → Store Num → Store Num × List ℤ
  apply_ticks at [] s = (s, [])
  apply_ticks at (t ∷ ts) s =
      let (s', changed) =
        apply_ticks at ts (if authoritative t then apply_book at t s else ignored s) in
      (s', if authoritative t then t.token ∷ changed else changed)

  -- The listeners that are called, in the order of subscription.
  abbrev pub notified : ℕ → List (Tick Num) → Store Num → List ℕ
  notified at ts s = if is_empty (apply_ticks at ts s).1 then [] else s.listeners

  -- `SpotStore`: a value and when it was seen.
  abbrev pub Spots : Type 0
  Spots = Map ℤ (Num × ℕ)

  unfoldable pub set_spot : ℤ → Num → ℕ → Spots → Spots
  set_spot token value at s = if lt (of_nat 0) value then put ℤ-discrete token (value, at) s else s

  unfoldable pub spot_is_fresh : ℤ → ℕ → ℕ → Spots → Bool
  spot_is_fresh token max_age now s = elim (get ℤ-discrete token s) [
    | none ↦ false
    | some spot ↦ leb (now - spot.1) max_age
  ]
