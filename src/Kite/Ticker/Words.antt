-- ===== src/Kite/Ticker/Words.antt =====
-- internal/kite/ticker/parse.go reads back the messages that its comment lays out.
use mathlib.Core.List.{append-nil, append_assoc}
use cal_spread_backend.Base.{
  ℕ, zero, suc, ◌+◌, ◌*◌, ◌/◌, ◌^◌, ◌≤◌, ◌<◌, ◌≡◌, refl, sym, ap, ◌∙◌, some, List, [], ◌∷◌, ◌++◌,
  leb, length, length-append, drop, if◌then◌else◌, All, arith, map,
}
use cal_spread_backend.Base.Float.{Float64}
use cal_spread_backend.Base.Int.{pos}
use cal_spread_backend.Spike.Quote.{Tick}
use cal_spread_backend.Kite.Ticker.{
  u32, u16, i16, first_word, first_half, read_level, read_levels, read_book, read_close, read_tick,
  parse_packets, parse_binary, price_of,
}
use cal_spread_backend.Kite.Ticker.Layout.{
  half_bytes, word_bytes, packet_bytes, message_bytes, word, IsU32, IsPacket, level_at, levels_at,
  book_at, tick_at,
}

drop-append : (f r : List ℕ) (k : ℕ) → drop (length f + k) (f ++ r) ≡ drop k r
drop-append [] r k = ground arith
drop-append (x ∷ f) r k =
    let e : length (x ∷ f) + k ≡ suc (length f + k) = omega arith in rw e (drop-append f r k)

four_more : (k : ℕ) → 4 * suc k ≡ suc (suc (suc (suc (4 * k))))
four_more k = omega arith

first_word-word :
    (ws rest : List ℕ) (k : ℕ)
    → k < length ws
    → All IsU32 ws
    → first_word (drop (4 * k) (word_bytes ws ++ rest)) ≡ some (word k ws)
first_word-word [] rest k h a = absurd (omega arith)
first_word-word (w ∷ ws) rest zero h a = ground (arith, a.0)
first_word-word (w ∷ ws) rest (suc k) h a =
    rw (four_more k) (first_word-word ws rest k (omega arith) a.1)

first_half-word :
    (ws rest : List ℕ) (k : ℕ)
    → k < length ws
    → All IsU32 ws
    → first_half (drop (4 * k) (word_bytes ws ++ rest)) ≡ some (word k ws / 2 ^ 16)
first_half-word [] rest k h a = absurd (omega arith)
first_half-word (w ∷ ws) rest zero h a = ground (arith, a.0)
first_half-word (w ∷ ws) rest (suc k) h a =
    rw (four_more k) (first_half-word ws rest k (omega arith) a.1)

length-word_bytes : (ws : List ℕ) → length (word_bytes ws) ≡ 4 * length ws
length-word_bytes [] = refl
length-word_bytes (w ∷ ws) = omega (arith, length-word_bytes ws)

-- A packet's words, between what stands before and after them in the message.
module _ (front ws rest : List ℕ) (fits : All IsU32 ws) where
  abbrev bytes : List ℕ
  bytes = front ++ (word_bytes ws ++ rest)

  u32-word :
      (off k : ℕ)
      → off ≡ length front + 4 * k
      → k < length ws
      → u32 bytes (pos off) ≡ some (word k ws)
  unfolding u32
  u32-word off k e h = rw e (rw drop-append (first_word-word ws rest k h fits))

  u16-word :
      (off k : ℕ)
      → off ≡ length front + 4 * k
      → k < length ws
      → u16 bytes (pos off) ≡ some (word k ws / 2 ^ 16)
  unfolding u16
  u16-word off k e h = rw e (rw drop-append (first_half-word ws rest k h fits))

  module _ (fl : Float64) where
    open fl use {Num, lt, div, of_nat}

    read_level-level_at :
        (token off k : ℕ)
        → off ≡ length front + 4 * k
        → k + 2 < length ws
        → read_level fl token bytes (pos off) ≡ some (level_at fl token ws k)
    unfolding read_level
    read_level-level_at token off k e h =
        ground (arith, u32-word (off + 4) (k + 1), u32-word off k, u16-word (off + 8) (k + 2))

    read_levels-levels_at :
        (n token off k : ℕ)
        → off ≡ length front + 4 * k
        → k + 3 * n ≤ length ws
        → read_levels fl n token bytes (pos off) ≡ some (levels_at fl n token ws k)
    unfolding read_levels levels_at
    read_levels-levels_at zero token off k e h = refl
    read_levels-levels_at (suc n) token off k e h =
        ground
          (arith, read_level-level_at token off k, read_levels-levels_at n token (off + 12) (k + 3))

    read_book-book_at :
        (token off : ℕ)
        → off ≡ length front
        → 46 ≤ length ws
        → read_book fl token bytes (pos off) ≡ some (book_at fl token ws)
    unfolding read_book
    read_book-book_at token off e h = ground (
      arith,
      u32-word (off + 48) 12,
      u32-word (off + 60) 15,
      read_levels-levels_at 5 token (off + 64) 16,
      read_levels-levels_at 5 token (off + 124) 31,
    )

    read_close-word :
        (token off : ℕ)
        → off ≡ length front
        → read_close fl token bytes (pos off) (pos (4 * length ws))
          ≡ some (if leb 11 (length ws) then price_of fl token (word 10 ws) else of_nat 0)
    unfolding read_close
    read_close-word token off e = ground (arith, u32-word (off + 40) 10)

    read_tick-tick_at :
        (off : ℕ)
        → off ≡ length front
        → 2 ≤ length ws
        → read_tick fl bytes (pos off) (pos (4 * length ws)) ≡ some (tick_at fl ws)
    unfolding read_tick
    read_tick-tick_at off e h = ground (
      arith,
      u32-word off 0,
      u32-word (off + 4) 1,
      read_close-word (word 0 ws) off,
      read_book-book_at (word 0 ws) off,
    )

u16-half_bytes :
    (f rest : List ℕ) (w off : ℕ)
    → off ≡ length f
    → u16 (f ++ (half_bytes w ++ rest)) (pos off) ≡ some w
unfolding u16
u16-half_bytes f rest w off e =
    let here : off ≡ length f + 0 = omega arith in rw here (rw drop-append (ground arith))

i16-half_bytes :
    (f rest : List ℕ) (w off : ℕ)
    → w < 2 ^ 15
    → off ≡ length f
    → i16 (f ++ (half_bytes w ++ rest)) (pos off) ≡ pos w
unfolding i16
i16-half_bytes f rest w off h e = ground (arith, u16-half_bytes f rest w off e)

module _ (fl : Float64) where
  -- One round of the loop, at a whole packet.
  parse_packets_step :
      (n : ℕ) (f p rest : List ℕ) (b : List ℕ) (ticks : List (Tick fl.Num))
      → IsPacket p
      → b ≡ f ++ (half_bytes (4 * length p) ++ (word_bytes p ++ rest))
      → parse_packets fl (suc n) b (pos (length f)) ticks
        ≡ parse_packets fl n b (pos (length f + 2 + 4 * length p)) (ticks ++ tick_at fl p ∷ [])
  unfolding parse_packets
  parse_packets_step n f p rest b ticks h e =
      let front : List ℕ = f ++ half_bytes (4 * length p) in
      let whole : b ≡ front ++ (word_bytes p ++ rest) =
        e ∙ sym (append_assoc f (half_bytes (4 * length p)) (word_bytes p ++ rest)) in
      let start : length front ≡ length f + 2 = length-append f (half_bytes (4 * length p)) in
      let long : length b ≡ length front + (4 * length p + length rest) =
        ap length whole
        ∙ length-append front (word_bytes p ++ rest)
        ∙ ap (λ (n : ℕ). length front + n)
            (length-append (word_bytes p) rest
              ∙ ap (λ (n : ℕ). n + length rest) (length-word_bytes p)) in
      let header : u16 b (pos (length f)) ≡ some (4 * length p) =
        ap (λ (l : List ℕ). u16 l (pos (length f))) e
        ∙ u16-half_bytes f (word_bytes p ++ rest) (4 * length p) (length f) refl in
      let size : i16 b (pos (length f)) ≡ pos (4 * length p) =
        ap (λ (l : List ℕ). i16 l (pos (length f))) e
        ∙ i16-half_bytes f (word_bytes p ++ rest) (4 * length p) (length f) (omega (arith, h.1))
            refl in
      let body : read_tick fl b (pos (length f + 2)) (pos (4 * length p)) ≡ some (tick_at fl p) =
        ap (λ (l : List ℕ). read_tick fl l (pos (length f + 2)) (pos (4 * length p))) whole
        ∙ read_tick-tick_at front p rest h.2 fl (length f + 2) (sym start) h.0 in
      ground arith

  parse_packets-packet_bytes :
      (ps : List (List ℕ)) (f b : List ℕ) (off : ℕ) (ticks : List (Tick fl.Num))
      → All IsPacket ps
      → off ≡ length f
      → b ≡ f ++ packet_bytes ps
      → parse_packets fl (length ps) b (pos off) ticks ≡ ticks ++ map (tick_at fl) ps
  parse_packets-packet_bytes [] f b off ticks h o e = unfold parse_packets in sym (append-nil ticks)
  parse_packets-packet_bytes (p ∷ ps) f b off ticks h o e =
      let next : length f + 2 + 4 * length p
          ≡ length (f ++ (half_bytes (4 * length p) ++ word_bytes p)) =
        omega (
          arith,
          length-append f (half_bytes (4 * length p) ++ word_bytes p),
          length-word_bytes p,
        ) in
      let round : parse_packets fl (suc (length ps)) b (pos (length f)) ticks
          ≡ parse_packets fl (length ps) b (pos (length f + 2 + 4 * length p))
              (ticks ++ tick_at fl p ∷ []) =
        parse_packets_step (length ps) f p (packet_bytes ps) b ticks h.0 e in
      let rest =
        parse_packets-packet_bytes ps (f ++ (half_bytes (4 * length p) ++ word_bytes p)) b
          (length f + 2 + 4 * length p) (ticks ++ tick_at fl p ∷ []) h.1 next
          (e
            ∙ sym (append_assoc f (half_bytes (4 * length p) ++ word_bytes p) (packet_bytes ps))) in
      ap (λ (n : ℕ). parse_packets fl (suc (length ps)) b (pos n) ticks) o
      ∙ round
      ∙ rest
      ∙ append_assoc ticks (tick_at fl p ∷ []) (map (tick_at fl) ps)

  -- A message of fewer than 2^15 packets, each with its token and its price and a length that fits
  -- its field, is read back in full: one tick for each packet, in order, with the fields that the
  -- packet's length calls for.
  pub parse_binary-message_bytes :
      (ps : List (List ℕ))
      → length ps < 2 ^ 15
      → All IsPacket ps
      → parse_binary fl (message_bytes ps) ≡ map (tick_at fl) ps
  unfolding parse_binary
  parse_binary-message_bytes ps h a = ground (
    arith,
    i16-half_bytes [] (packet_bytes ps) (length ps) 0 h refl,
    parse_packets-packet_bytes ps (half_bytes (length ps)) (message_bytes ps) 2 [] a refl refl,
  )
