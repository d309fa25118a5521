-- ===== src/Spike/Types.antt =====
-- internal/spike/types.go: the data of the engine, over the numbers `Num` of Go's float64. Times are
-- epoch milliseconds and are not negative.
use cal_spread_backend.Base.{ℕ, Bool, Option, String, ◌*◌}
use cal_spread_backend.Base.Int.{ℤ}

-- The `Symbols`; each map of the engine that is keyed by a symbol is keyed by these.
pub data Symbol : Type 0 where
  nifty sensex : Symbol

unfoldable pub Symbol-discrete : Discrete Symbol
Symbol-discrete = hlevel

-- 30 minutes.
abbrev pub window_ms : ℕ
window_ms = 30 * 60 * 1000

abbrev pub quote_age_ms : ℕ
quote_age_ms = 60 * 1000

abbrev pub book_age_ms : ℕ
book_age_ms = 15 * 1000

abbrev pub hedge_steps : ℕ
hedge_steps = 4

pub record Sample (Num : Type 0) : Type 0 where
  pub t : ℕ
  pub premium : Num
  pub vwap : Num
  pub strike : Num
  pub expiry : String
  pub ce_token : ℤ
  pub pe_token : ℤ

-- The symbol of a bar is the key under which the engine keeps it.
pub record Bar (Num : Type 0) : Type 0 where
  pub sample : Sample Num
  pub symbol : Symbol
  pub day : String
  pub low : Num
  pub low_at : ℕ
  pub high : Num
  pub high_at : ℕ

pub data Direction : Type 0 where
  call_credit put_credit : Direction

pub record Signal (Num : Type 0) : Type 0 where
  pub direction : Direction
  pub t : ℕ
  pub reference : Num
  pub reference_at : ℕ
  pub move_pct : Num
  pub premium : Num
  pub vwap : Num

pub record Leg (Num : Type 0) : Type 0 where
  pub token : ℤ
  pub symbol : String
  pub strike : Num
  pub entry : Num
  pub exit : Option Num

pub data Status : Type 0 where
  open_trade closed_trade : Status

pub record Trade (Num : Type 0) : Type 0 where
  pub id : String
  pub symbol : Symbol
  pub status : Status
  pub direction : Direction
  pub expiry : String
  pub lot_size : ℕ
  pub quantity : ℕ
  pub opened_at : ℕ
  pub closed_at : Option ℕ
  pub short : Leg Num
  pub hedge : Leg Num
  pub signal : Signal Num
  pub entry_credit : Num
  pub mark_short : Option Num
  pub mark_hedge : Option Num
  pub mark_at : Option ℕ
  pub pnl : Option Num
  pub mark_stale : Bool

pub record IndexView (Num : Type 0) : Type 0 where
  pub symbol : Symbol
  pub expiry : String
  pub pairs : ℕ
  pub lot_size : ℕ
  pub current : Option (Sample Num)
  pub signal : Option (Signal Num)
  pub note : String
  pub recording_since : Option ℕ
