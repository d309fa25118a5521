-- ===== src/Spike/Universe.antt =====
-- internal/spike/universe.go: the option chains of a symbol at the nearest expiry. `strings.ToUpper`
-- and the comparison of texts are Go's, and are given; Go ranges over the map of calls in any order,
-- which the sort by strike makes irrelevant if no two strikes are equal.
use text.Mathlib.Text.{◌==◌ as str_eq}
use cal_spread_backend.Base.{
  ◌≡◌, Bool, true, not, ◌&&◌, ◌||◌, String, Option, none, some, List, [], ◌∷◌, if◌then◌else◌, All,
  arith, Bool-cases, Option-cases, subst, inl, inr,
}
use cal_spread_backend.Base.Filter.{keep}
use cal_spread_backend.Base.Maps.{Map}
use cal_spread_backend.Base.Float.{Float64}
use cal_spread_backend.Spike.Types.{Symbol, nifty, sensex}
use cal_spread_backend.Spike.Rules.{Instrument, Pair, Universe}
use cal_spread_backend.Quotes.{sort_stable}
use cal_spread_backend.Quotes.Sanitize.{sort-All}

-- What the loops use of Go's library on texts.
pub record Texts : Type 0 where
  pub upper : String → String
  pub before : String → String → Bool

abbrev pub symbol_text : Symbol → String
symbol_text nifty = "NIFTY"
symbol_text sensex = "SENSEX"

module _ (fl : Float64) (texts : Texts) where
  open fl use {Num, le, lt, of_nat}

  abbrev pub is_listed : Instrument Num → Bool
  is_listed row = str_eq row.exchange "NFO" || str_eq row.exchange "BFO"

  abbrev pub is_option : Instrument Num → Bool
  is_option row = str_eq row.instrument_type "CE" || str_eq row.instrument_type "PE"

  -- The row sets a nearer expiry.
  unfoldable pub nearer : Symbol → String → String → Instrument Num → Bool
  nearer s day expiry row =
      str_eq (texts.upper row.name) (symbol_text s)
      && is_listed row
      && is_option row
      && not (texts.before row.expiry day)
      && (str_eq expiry "" || texts.before row.expiry expiry)

  unfoldable pub nearest_expiry : Symbol → String → String → List (Instrument Num) → String
  nearest_expiry s day expiry [] = expiry
  nearest_expiry s day expiry (row ∷ rows) =
      nearest_expiry s day (if nearer s day expiry row then row.expiry else expiry) rows

  -- The row is one of the chain: the second loop does not skip it.
  unfoldable pub in_chain : Symbol → String → Instrument Num → Bool
  in_chain s expiry row =
      str_eq (texts.upper row.name) (symbol_text s)
      && str_eq row.expiry expiry
      && not (le row.strike (of_nat 0))
      && is_listed row

  abbrev pub side : String → Symbol → String → List (Instrument Num) → List (Instrument Num)
  side kind s expiry rows =
      keep (λ row. in_chain s expiry row && str_eq row.instrument_type kind) rows

  abbrev pub same_strike : Instrument Num → Instrument Num → Bool
  same_strike a b = le a.strike b.strike && le b.strike a.strike

  -- A map from the strike: the last row of a strike is the one that counts.
  unfoldable pub last_at : Instrument Num → List (Instrument Num) → Option (Instrument Num)
  last_at x [] = none
  last_at x (row ∷ rows) = elim (last_at x rows) [
    | some found ↦ some found
    | none ↦ if same_strike row x then some row else none
  ]

  -- The entries of that map.
  unfoldable pub last_rows : List (Instrument Num) → List (Instrument Num)
  last_rows [] = []
  last_rows (row ∷ rows) =
      let rest = last_rows rows in elim (last_at row rows) [ some later ↦ rest | none ↦ row ∷ rest ]

  unfoldable pub pairs_of : List (Instrument Num) → List (Instrument Num) → List (Pair Num)
  pairs_of [] puts = []
  pairs_of (ce ∷ calls) puts =
      let rest = pairs_of calls puts in
      elim (last_at ce puts) [ none ↦ rest | some pe ↦ record { ce = ce; pe = pe } ∷ rest ]

  abbrev pub lower : Instrument Num → Instrument Num → Bool
  lower a b = lt a.strike b.strike

  unfoldable pub build_universe : Symbol → String → List (Instrument Num) → Universe Num
  build_universe s day rows =
      let expiry = nearest_expiry s day "" rows in
      let calls = side "CE" s expiry rows in
      let puts = side "PE" s expiry rows in
      record {
        symbol = s;
        expiry = expiry;
        pairs = sort_stable (λ p q. lower p.ce q.ce) (pairs_of (last_rows calls) puts);
        calls = sort_stable lower calls;
        puts = sort_stable lower puts;
      }

  unfoldable pub build_universes : List (Instrument Num) → String → Map Symbol (Universe Num)
  build_universes rows day =
      (nifty, build_universe nifty day rows) ∷ (sensex, build_universe sensex day rows) ∷ []

  -- A pair has one strike.
  abbrev pub IsPaired : Pair Num → Type 0
  IsPaired p = same_strike p.pe p.ce ≡ true

  last_at-same :
      (x y : Instrument Num) (rows : List (Instrument Num))
      → last_at x rows ≡ some y
      → same_strike y x ≡ true
  unfolding last_at
  last_at-same x y [] h = absurd (ground (arith, h))
  last_at-same x y (row ∷ rows) h = elim (Option-cases (last_at x rows)) [
    | inl absent ↦ elim (Bool-cases (same_strike row x)) [
      | inl same ↦
          subst (λ (z : Instrument Num). same_strike z x ≡ true) {x = row} {y = y}
            (ground (arith, h, absent, same)) same
      | inr other ↦ absurd (ground (arith, h, absent, other))
    ]
    | inr (z, found) ↦ last_at-same x y rows (ground (arith, h, found))
  ]

  pairs_of-IsPaired : (calls puts : List (Instrument Num)) → All IsPaired (pairs_of calls puts)
  unfolding pairs_of
  pairs_of-IsPaired [] puts = tt
  pairs_of-IsPaired (ce ∷ calls) puts = elim (Option-cases (last_at ce puts)) [
    | inl lone ↦ rw (lone, pairs_of) (pairs_of-IsPaired calls puts)
    | inr (pe, found) ↦
        rw (found, pairs_of) (last_at-same ce pe puts found, pairs_of-IsPaired calls puts)
  ]

  -- The call and the put of every pair of a universe have the same strike.
  build_universe-IsPaired :
      (s : Symbol) (day : String) (rows : List (Instrument Num))
      → All IsPaired (build_universe s day rows).pairs
  unfolding build_universe
  build_universe-IsPaired s day rows =
      let expiry = nearest_expiry s day "" rows in
      let pairs = pairs_of (last_rows (side "CE" s expiry rows)) (side "PE" s expiry rows) in
      sort-All IsPaired (λ p q. lower p.ce q.ce) pairs
        (pairs_of-IsPaired (last_rows (side "CE" s expiry rows)) (side "PE" s expiry rows))
