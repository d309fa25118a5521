-- ===== src/Kite/Ticker/Tests.antt =====
-- Runs of the decoder of internal/kite/ticker/parse.go, in thousandths.
use cal_spread_backend.Base.{ℕ, ◌≡◌, refl, List, [], ◌∷◌, arith, length, map}
use cal_spread_backend.Base.Milli.{milli}
use cal_spread_backend.Kite.Ticker.{
  u32, u16, i16, price_divisor, read_close, read_tick, parse_packets, parse_binary,
}
use cal_spread_backend.Kite.Ticker.Layout.{message_bytes, tick_at}
use cal_spread_backend.Kite.Ticker.Words.{parse_binary-message_bytes}

-- An 8-byte packet, and one that carries the close.
abbrev packets : List (List ℕ)
packets =
    (256265 ∷ 2451290 ∷ []) ∷ (2997505 ∷ 70000 ∷ 1 ∷ 2 ∷ 3 ∷ 4 ∷ 5 ∷ 6 ∷ 7 ∷ 8 ∷ 69000 ∷ []) ∷ []

parse_binary-message_bytes_example :
    parse_binary milli (message_bytes packets) ≡ map (tick_at milli) packets
parse_binary-message_bytes_example =
    parse_binary-message_bytes milli packets (omega arith) (omega arith)

-- The second packet is cut off: its header stands in the message, its body does not.
cut_off :
    length (parse_binary milli (0 ∷ 2 ∷ 0 ∷ 8 ∷ 0 ∷ 0 ∷ 0 ∷ 1 ∷ 0 ∷ 0 ∷ 0 ∷ 2 ∷ 0 ∷ 8 ∷ 1 ∷ [])) ≡ 1
unfolding parse_binary parse_packets read_tick read_close u32 u16 i16 price_divisor
cut_off = refl

-- A packet that declares a length below zero is read, and stands outside the message, which drops
-- all of it.
dropped : parse_binary milli (0 ∷ 1 ∷ 255 ∷ 240 ∷ []) ≡ []
unfolding parse_binary parse_packets read_tick read_close u32 u16 i16 price_divisor
dropped = refl
