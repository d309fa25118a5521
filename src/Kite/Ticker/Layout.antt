-- ===== src/Kite/Ticker/Layout.antt =====
-- What the comment of internal/kite/ticker/parse.go lays out: a message is its count of packets and,
-- for each packet, its length and its 32-bit words in big-endian order.
use cal_spread_backend.Base.{
  ℕ, zero, suc, ◌+◌, ◌*◌, ◌/◌, ◌^◌, ◌%◌, ◌≤◌, ◌<◌, true, false, Option, none, some, List, [], ◌∷◌,
  ◌++◌, leb, length, if◌then◌else◌, All,
}
use cal_spread_backend.Base.Float.{Float64}
use cal_spread_backend.Spike.Quote.{DepthLevel, Tick}
use cal_spread_backend.Kite.Ticker.{add_level, Book, no_book, time_of, tick_of, price_of}

abbrev pub half_bytes : ℕ → List ℕ
half_bytes w = w / 2 ^ 8 ∷ w % 2 ^ 8 ∷ []

-- The bytes of 32-bit words, the highest byte first.
abbrev pub word_bytes : List ℕ → List ℕ
word_bytes [] = []
word_bytes (w ∷ ws) =
    w / 2 ^ 24 ∷ w / 2 ^ 16 % 2 ^ 8 ∷ w / 2 ^ 8 % 2 ^ 8 ∷ w % 2 ^ 8 ∷ word_bytes ws

abbrev pub packet_bytes : List (List ℕ) → List ℕ
packet_bytes [] = []
packet_bytes (p ∷ ps) = half_bytes (4 * length p) ++ (word_bytes p ++ packet_bytes ps)

abbrev pub message_bytes : List (List ℕ) → List ℕ
message_bytes ps = half_bytes (length ps) ++ packet_bytes ps

abbrev pub word : ℕ → List ℕ → ℕ
word k [] = 0
word zero (w ∷ ws) = w
word (suc k) (w ∷ ws) = word k ws

abbrev pub IsU32 : ℕ → Type 0
IsU32 w = w < 2 ^ 32

-- A packet has its token and its last price, and a length that fits its field.
abbrev pub IsPacket : List ℕ → Type 0
IsPacket ws = (2 ≤ length ws) × (length ws < 2 ^ 13) × All IsU32 ws

module _ (fl : Float64) where
  open fl use {Num, lt, of_nat}

  -- A level of the depth, three words from the k-th on, without those that have no price.
  abbrev pub level_at : ℕ → List ℕ → ℕ → Option (DepthLevel Num)
  level_at token ws k = elim (lt (of_nat 0) (price_of fl token (word (k + 1) ws))) [
    | false ↦ none
    | true ↦ some (record {
      price = price_of fl token (word (k + 1) ws);
      qty = of_nat (word k ws);
      orders = of_nat (word (k + 2) ws / 2 ^ 16);
    })
  ]

  unfoldable pub levels_at : ℕ → ℕ → List ℕ → ℕ → List (DepthLevel Num)
  levels_at zero token ws k = []
  levels_at (suc n) token ws k = add_level fl (level_at token ws k) (levels_at n token ws (k + 3))

  -- The open interest is word 12, the time word 15, and five levels stand at words 16 and 31.
  abbrev pub book_at : ℕ → List ℕ → Book fl
  book_at token ws = record {
    oi = of_nat (word 12 ws);
    exchange_ts = time_of fl (word 15 ws);
    bids = levels_at 5 token ws 16;
    asks = levels_at 5 token ws 31;
  }

  -- The token is word 0, the last price word 1 and the close word 10, where the packet has it.
  abbrev pub tick_at : List ℕ → Tick Num
  tick_at ws =
      tick_of fl (word 0 ws) (price_of fl (word 0 ws) (word 1 ws))
        (if leb 11 (length ws) then price_of fl (word 0 ws) (word 10 ws) else of_nat 0)
        (leb 46 (length ws)) (if leb 46 (length ws) then book_at (word 0 ws) ws else no_book fl)
