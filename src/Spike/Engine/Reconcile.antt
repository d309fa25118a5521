-- ===== src/Spike/Engine/Reconcile.antt =====
-- internal/spike/engine.go: the last locked stretches of the reconciler, which switch the engine off
-- without a session of Dhan and on with the chains of the day. The load of the day's records is left
-- out.
use mathlib.Core.Option
use cal_spread_backend.Base.{
  ℕ, ◌≤◌, ◌≡◌, true, false, not, ◌||◌, List, [], ◌∷◌, ◌++◌, ltb, is_empty, length, mem,
  if◌then◌else◌, All, arith, subst,
}
use cal_spread_backend.Base.Int.{ℤ, ℤ-discrete}
use cal_spread_backend.Base.Maps.{Map, get, put}
use cal_spread_backend.Spike.Types.{Symbol, Symbol-discrete, nifty, sensex, Trade, IndexView}
use cal_spread_backend.Spike.Rules.{Instrument, Universe}
use cal_spread_backend.Spike.Quote.{Namespace, same_namespace}
use cal_spread_backend.Spike.Engine.{Engine, Env}
use cal_spread_backend.Spike.Engine.Reads.{new_view}

-- `maxTokens`.
abbrev pub max_tokens : ℕ
max_tokens = 5000

-- A set of tokens gains one.
unfoldable pub add_token : ℤ → List ℤ → List ℤ
add_token t xs = if mem ℤ-discrete t xs then xs else xs ++ t ∷ []

-- What the last stretch ends with: nothing to do any more, an error, or the engine switched on.
pub data Activation (Num : Type 0) : Type 0 where
  outdated too_many_tokens : Activation Num
  activated : Engine Num → Activation Num

mem-append :
    (t : ℤ) (xs ys : List ℤ) → mem ℤ-discrete t xs ≡ true → mem ℤ-discrete t (xs ++ ys) ≡ true
unfolding mem
mem-append t [] ys h = absurd (ground (arith, h))
mem-append t (x ∷ xs) ys h = ground (arith, h, mem-append t xs ys)

mem-last : (t : ℤ) (xs : List ℤ) → mem ℤ-discrete t (xs ++ t ∷ []) ≡ true
unfolding mem
mem-last t [] = ground arith
mem-last t (x ∷ xs) = ground (arith, mem-last t xs)

mem-add_token : (t : ℤ) (xs : List ℤ) → mem ℤ-discrete t (add_token t xs) ≡ true
unfolding add_token
mem-add_token t xs = ground (arith, mem-last t xs)

add_token_keeps :
    (t u : ℤ) (xs : List ℤ) → mem ℤ-discrete t xs ≡ true → mem ℤ-discrete t (add_token u xs) ≡ true
unfolding add_token
add_token_keeps t u xs h = ground (arith, h, mem-append t xs (u ∷ []))

module _ {Num : Type 0} where
  unfoldable pub add_rows : List (Instrument Num) → List ℤ → List ℤ
  add_rows [] xs = xs
  add_rows (row ∷ rows) xs = add_rows rows (add_token row.instrument_token xs)

  unfoldable pub add_chains : Map Symbol (Universe Num) → List ℤ → List ℤ
  add_chains [] xs = xs
  add_chains ((s, u) ∷ m) xs = add_chains m (add_rows (u.calls ++ u.puts) xs)

  unfoldable pub add_open : Map Symbol (Trade Num) → List ℤ → List ℤ
  add_open [] xs = xs
  add_open ((s, t) ∷ m) xs = add_open m (add_token t.hedge.token (add_token t.short.token xs))

  -- The view of a symbol after the switch; the lot size is the whole part of the first pair's.
  abbrev activated_view : (Num → ℕ) → Universe Num → IndexView Num → IndexView Num
  activated_view whole u v = record v {
    expiry = u.expiry;
    pairs = length u.pairs;
    lot_size = elim u.pairs [ [] ↦ v.lot_size | p ∷ ps ↦ whole p.ce.lot_size ];
    note =
        if is_empty u.pairs
        then "No paired options found for nearest expiry"
        else "Waiting for full WebSocket quotes";
  }

  unfoldable pub set_views :
      (Num → ℕ)
      → Map Symbol (Universe Num)
      → Map Symbol (IndexView Num)
      → Map Symbol (IndexView Num)
  set_views whole [] views = views
  set_views whole ((s, u) ∷ m) views = set_views whole m (
      put Symbol-discrete s
        (activated_view whole u (Option.get_or (get Symbol-discrete s views) (new_view s))) views)

  abbrev waiting_view : Symbol → Map Symbol (IndexView Num) → Map Symbol (IndexView Num)
  waiting_view s views =
      put Symbol-discrete s
        (record (Option.get_or (get Symbol-discrete s views) (new_view s)) {
          note = "Waiting for active Dhan session";
        })
        views

  -- Without a usable session.
  unfoldable pub deactivate : Namespace → Engine Num → Engine Num
  deactivate namespace e = record e {
    active = false;
    connected = false;
    namespace = namespace;
    quotes = [];
    previous = [];
    pending = [];
    views = waiting_view sensex (waiting_view nifty e.views);
  }

  abbrev forgotten : Engine Num → Engine Num
  forgotten e = record e { quotes = []; previous = []; pending = [] }

  unfoldable pub activate :
      (Num → ℕ) → Env → Namespace → Map Symbol (Universe Num) → Engine Num → Activation Num
  activate whole env namespace universes e =
      let wanted = add_open e.open_trades (add_chains universes []) in
      let e₁ = if same_namespace e.namespace namespace then e else forgotten e in
      if e.stopped || not (same_namespace namespace env.namespace_now)
      then outdated
      else if ltb max_tokens (length wanted)
      then too_many_tokens
      else activated (record e₁ {
        namespace = namespace;
        active = true;
        universes = universes;
        wanted = wanted;
        last_error = "";
        views = set_views whole universes e.views;
      })

  add_open_keeps :
      (t : ℤ) (m : Map Symbol (Trade Num)) (xs : List ℤ)
      → mem ℤ-discrete t xs ≡ true
      → mem ℤ-discrete t (add_open m xs) ≡ true
  unfolding add_open
  add_open_keeps t [] xs h = h
  add_open_keeps t ((s, u) ∷ m) xs h =
      add_open_keeps t m (add_token u.hedge.token (add_token u.short.token xs)) (
        add_token_keeps t u.hedge.token (add_token u.short.token xs)
          (add_token_keeps t u.short.token xs h))

  -- Both legs are among the tokens.
  abbrev pub Covered : List ℤ → Symbol × Trade Num → Type 0
  Covered wanted (s, t) =
      (mem ℤ-discrete t.short.token wanted ≡ true) × (mem ℤ-discrete t.hedge.token wanted ≡ true)

  add_open-Covered : (m : Map Symbol (Trade Num)) (xs : List ℤ) → All (Covered (add_open m xs)) m
  unfolding add_open
  add_open-Covered [] xs = tt
  add_open-Covered ((s, t) ∷ m) xs =
      let one = add_token t.short.token xs in
      let two = add_token t.hedge.token one in
      (
        (
          add_open_keeps t.short.token m two
              (add_token_keeps t.short.token t.hedge.token one (mem-add_token t.short.token xs)),
          add_open_keeps t.hedge.token m two (mem-add_token t.hedge.token one),
        ),
        add_open-Covered m two,
      )

  -- When the engine is switched on, it wants at most `maxTokens` tokens, the legs of every open spread
  -- among them, and the open and the closed spreads are as they were.
  pub activate_lem :
      (whole : Num → ℕ) (env : Env) (namespace : Namespace) (universes : Map Symbol (Universe Num))
      (e e' : Engine Num)
      → activate whole env namespace universes e ≡ activated e'
      → (length e'.wanted ≤ max_tokens)
        × All (Covered e'.wanted) e.open_trades
        × (e'.open_trades ≡ e.open_trades)
        × (e'.closed ≡ e.closed)
        × (e'.active ≡ true)
  unfolding activate
  activate_lem whole env namespace universes e e' h =
      let chains = add_chains universes [] in
      let wants : add_open e.open_trades chains ≡ e'.wanted = ground (arith, h) in
      (
        ground (arith, h),
        subst (λ w. All (Covered w) e.open_trades) wants (add_open-Covered e.open_trades chains),
        ground (arith, h),
        ground (arith, h),
        ground (arith, h),
      )
