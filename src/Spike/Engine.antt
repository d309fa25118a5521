-- ===== src/Spike/Engine.antt =====
-- internal/spike/engine.go and actions.go: the state of the engine. Each method of the engine is
-- split at its locks: one definition for each stretch of code that holds `e.mu`. The snapshots that
-- go to watchers are left out.
pub mod Bars
pub mod Marks
pub mod Evaluate
pub mod Trades
pub mod Contracts
pub mod Fills
pub mod Ledger
pub mod Machine
pub mod Saved
pub mod Reads
pub mod Reconcile
use mathlib.Core.Option
use mathlib.Core.Bool.{decide}
use cal_spread_backend.Base.{
  ℕ, ◌+◌, ◌*◌, ◌/◌, ◌%◌, Bool, true, false, ◌&&◌, not, String, List, [], ◌∷◌, leb, ltb, ℕ_discrete,
}
use cal_spread_backend.Base.Int.{ℤ, ℤ-discrete}
use cal_spread_backend.Base.Maps.{Map, get}
use cal_spread_backend.Base.Float.{Float64}
use cal_spread_backend.Spike.Types.{
  Symbol, Symbol-discrete, nifty, sensex, Sample, Bar, Trade, IndexView,
}
use cal_spread_backend.Spike.Window.{PriceWindow}
use cal_spread_backend.Spike.Rules.{Universe}
use cal_spread_backend.Spike.Quote.{Namespace, Broker, Quote, no_quote, is_dhan}

pub record Candidate (Num : Type 0) : Type 0 where
  pub trade : Trade Num
  pub namespace : Namespace

-- The key "symbol:day:t" of a bar that is still to be saved.
abbrev pub BarKey : Type 0
BarKey = Symbol × String × ℕ

-- What a method asks of its surroundings: the clock, the active broker generation, whether its
-- session is usable, whether there is a database, the date of a time in India as text, and a new id.
pub record Env : Type 0 where
  pub now : ℕ
  pub namespace_now : Namespace
  pub ready : Bool
  pub db_enabled : Bool
  pub day_key : ℕ → String
  pub new_id : ℕ → String

pub record Engine (Num : Type 0) : Type 0 where
  pub started : Bool
  pub stopped : Bool
  pub loaded : Bool
  pub active : Bool
  pub connected : Bool
  pub paper : Bool
  pub day : String
  pub last_error : String
  pub namespace : Namespace
  pub universes : Map Symbol (Universe Num)
  pub wanted : List ℤ
  pub quotes : Map ℤ (Quote Num)
  pub views : Map Symbol (IndexView Num)
  pub previous : Map Symbol (Sample Num)
  pub windows : Map Symbol (PriceWindow Num)
  pub forming : Map Symbol (Bar Num)
  pub bars : Map Symbol (Map ℕ (Bar Num))
  pub pending_bars : Map BarKey (Bar Num)
  pub open_trades : Map Symbol (Trade Num)
  pub closed : List (Trade Num)
  pub pending : Map Symbol String
  pub refresh : Bool
  pub candidates : List (Candidate Num)

abbrev pub symbols : List Symbol
symbols = nifty ∷ sensex ∷ []

abbrev pub data_ready : Env → Bool
data_ready env = is_dhan env.namespace_now.broker && env.ready

-- Monday to Friday, from 9:15 to 15:30 in India. (The epoch began on a Thursday.)
unfoldable pub market_open : ℕ → Bool
market_open at =
    let local_minutes = (at + 330 * 60000) / 60000 in
    let weekday = (local_minutes / 1440 + 4) % 7 in
    let minutes = local_minutes % 1440 in
    not (leb 6 weekday)
    && not (leb weekday 0)
    && leb (9 * 60 + 15) minutes
    && ltb minutes (15 * 60 + 31)

module _ (fl : Float64) where
  open fl use {Num}

  unfoldable pub quote_for : ℤ → Engine Num → Quote Num
  quote_for token e = Option.get_or (get ℤ-discrete token e.quotes) (no_quote fl)
