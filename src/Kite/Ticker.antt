-- ===== src/Kite/Ticker.antt =====
-- internal/kite/ticker/parse.go: the decoder of the ticker's binary messages. A message is its list
-- of bytes, and an offset is an integer, since the length that a packet declares is signed. A read
-- outside the message is `none`: the frame's `bad` flag, which drops the message.
pub mod Layout
pub mod Words
pub mod Tests
use cal_spread_backend.Base.{
  ℕ, zero, suc, ◌+◌, ◌-◌, ◌*◌, ◌^◌, ◌%◌, Bool, true, false, Option, none, some, List, [], ◌∷◌, ◌++◌,
  ltb, not, ◌==◌, length, drop, if◌then◌else◌,
}
use cal_spread_backend.Base.Float.{Float64}
use cal_spread_backend.Base.Int.{ℤ, pos, negsuc, ◌+ℤ◌, leb_ℤ, pos_part}
use cal_spread_backend.Spike.Quote.{DepthLevel, Tick}

abbrev pub quote_packet_len : ℕ
quote_packet_len = 44

abbrev pub full_packet_len : ℕ
full_packet_len = 184

-- The position some bytes after an offset.
abbrev pub after : ℤ → ℕ → ℤ
after (pos n) k = pos (n + k)
after (negsuc n) k = if ltb n k then pos (k - n - 1) else negsuc (n - k)

abbrev first_word : List ℕ → Option ℕ
first_word (a ∷ b ∷ c ∷ d ∷ rest) = some (a * 2 ^ 24 + b * 2 ^ 16 + c * 2 ^ 8 + d)
first_word _ = none

abbrev first_half : List ℕ → Option ℕ
first_half (a ∷ b ∷ rest) = some (a * 2 ^ 8 + b)
first_half _ = none

unfoldable pub u32 : List ℕ → ℤ → Option ℕ
u32 b (pos off) = first_word (drop off b)
u32 b (negsuc n) = none

unfoldable pub u16 : List ℕ → ℤ → Option ℕ
u16 b (pos off) = first_half (drop off b)
u16 b (negsuc n) = none

abbrev pub signed16 : ℕ → ℤ
signed16 w = if ltb w (2 ^ 15) then pos w else negsuc (2 ^ 16 - w - 1)

-- The number that `i16` returns, 0 outside the message.
unfoldable pub i16 : List ℕ → ℤ → ℤ
i16 b off = elim (u16 b off) [ none ↦ pos 0 | some w ↦ signed16 w ]

-- The price scale of the token's segment.
unfoldable pub price_divisor : ℕ → ℕ
price_divisor token = if token % 256 == 3 then 10000000 else if token % 256 == 7 then 10000 else 100

infixl 20 ◌>>=◌
abbrev pub ◌>>=◌ {ℓ} : {A B : Type ℓ} → Option A → (A → Option B) → Option B
none >>= f = none
some a >>= f = f a

module _ (fl : Float64) where
  open fl use {Num, lt, div, of_nat}

  abbrev pub price_of : ℕ → ℕ → Num
  price_of token w = div (of_nat w) (of_nat (price_divisor token))

  -- A level of the depth whose price is not positive is left out, and the rest of it is not read.
  unfoldable pub read_level : ℕ → List ℕ → ℤ → Option (Option (DepthLevel Num))
  read_level token b off = do
    p ← u32 b (after off 4)
    elim (lt (of_nat 0) (price_of token p)) [
      | false ↦ some none
      | true ↦ do
        qty ← u32 b off
        orders ← u16 b (after off 8)
        some (some (record { price = price_of token p; qty = of_nat qty; orders = of_nat orders }))
    ]

  abbrev pub add_level : Option (DepthLevel Num) → List (DepthLevel Num) → List (DepthLevel Num)
  add_level none ls = ls
  add_level (some l) ls = l ∷ ls

  unfoldable pub read_levels : ℕ → ℕ → List ℕ → ℤ → Option (List (DepthLevel Num))
  read_levels zero token b off = some []
  read_levels (suc n) token b off = do
    level ← read_level token b off
    levels ← read_levels n token b (after off 12)
    some (add_level level levels)

  -- What only a full packet carries.
  pub record Book : Type 0 where
    pub oi : Num
    pub exchange_ts : Option ℕ
    pub bids : List (DepthLevel Num)
    pub asks : List (DepthLevel Num)

  abbrev pub no_book : Book
  no_book = record { oi = of_nat 0; exchange_ts = none; bids = []; asks = [] }

  abbrev pub time_of : ℕ → Option ℕ
  time_of zero = none
  time_of (suc n) = some (suc n * 1000)

  unfoldable pub read_book : ℕ → List ℕ → ℤ → Option Book
  read_book token b off = do
    oi ← u32 b (after off 48)
    seconds ← u32 b (after off 60)
    bids ← read_levels 5 token b (after off 64)
    asks ← read_levels 5 token b (after off 124)
    some (record { oi = of_nat oi; exchange_ts = time_of seconds; bids = bids; asks = asks })

  abbrev pub best_price : List (DepthLevel Num) → Num
  best_price [] = of_nat 0
  best_price (l ∷ ls) = l.price

  abbrev pub tick_of : ℕ → Num → Num → Bool → Book → Tick Num
  tick_of token last_price close_price full book = record {
    token = pos token;
    last_price = last_price;
    close_price = close_price;
    oi = book.oi;
    bid = best_price book.bids;
    ask = best_price book.asks;
    bids = some book.bids;
    asks = some book.asks;
    depth_updated = some full;
    exchange_ts = book.exchange_ts;
    average_price = none;
    price_updated = none;
    average_updated = none;
    namespace = none;
  }

  unfoldable pub read_close : ℕ → List ℕ → ℤ → ℤ → Option Num
  read_close token b off plen =
      if leb_ℤ (pos quote_packet_len) plen
      then (u32 b (after off 40) >>= (λ w. some (price_of token w)))
      else some (of_nat 0)

  -- One packet of the length `plen`.
  unfoldable pub read_tick : List ℕ → ℤ → ℤ → Option (Tick Num)
  read_tick b off plen = do
    token ← u32 b off
    last ← u32 b (after off 4)
    close ← read_close token b off plen
    book ← if leb_ℤ (pos full_packet_len) plen then read_book token b off else some no_book
    some (tick_of token (price_of token last) close (leb_ℤ (pos full_packet_len) plen) book)

  -- The loop over the packets, with the ticks so far.
  unfoldable pub parse_packets : ℕ → List ℕ → ℤ → List (Tick Num) → List (Tick Num)
  parse_packets zero b off ticks = ticks
  parse_packets (suc n) b off ticks =
      let plen = i16 b off in
      let start = after off 2 in
      if not (leb_ℤ start (pos (length b)))
      then ticks
      else if not (leb_ℤ (start +ℤ plen) (pos (length b)))
      then ticks
      else elim (u16 b off >>= (λ w. read_tick b start plen)) [
        | none ↦ []
        | some t ↦ parse_packets n b (start +ℤ plen) (ticks ++ t ∷ [])
      ]

  unfoldable pub parse_binary : List ℕ → List (Tick Num)
  parse_binary b =
      if ltb (length b) 2 then [] else parse_packets (pos_part (i16 b (pos 0))) b (pos 2) []
