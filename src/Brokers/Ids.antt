-- ===== src/Brokers/Ids.antt =====
-- internal/brokers/types.go: the names of the two brokers.
use text.Mathlib.Text.{◌==◌ as str_eq}
use cal_spread_backend.Base.{Bool, ◌||◌, Option, none, some, String, if◌then◌else◌}
use cal_spread_backend.Spike.Quote.{Broker}

abbrev pub text_of : Broker → String
text_of Broker.zerodha = "zerodha"
text_of Broker.dhan = "dhan"

abbrev pub legacy : Broker
legacy = Broker.zerodha

unfoldable pub is_id : String → Bool
is_id s = str_eq s (text_of Broker.zerodha) || str_eq s (text_of Broker.dhan)

-- The conversion of a text that is an id.
abbrev pub to_id : String → Broker
to_id s = if str_eq s (text_of Broker.dhan) then Broker.dhan else Broker.zerodha

unfoldable pub of : Option String → Broker
of none = legacy
of (some s) = if is_id s then to_id s else legacy

unfoldable pub label : Broker → String
label Broker.dhan = "DHAN"
label Broker.zerodha = "ZERODHA"

-- The argument is the text, if the value is one; `normal` is Go's trimming and lowering.
unfoldable pub parse : (String → String) → Option String → Option Broker
parse normal none = none
parse normal (some s) = if is_id (normal s) then some (to_id (normal s)) else none
