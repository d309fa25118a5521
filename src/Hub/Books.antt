-- ===== src/Hub/Books.antt =====
-- internal/hub/hub.go: which book the hub has for a token.
use cal_spread_backend.Base.{
  ℕ, ◌+◌, ◌≡◌, inl, inr, refl, ap, ◌∙◌, Bool, false, Option, none, some, List, [], ◌∷◌, ◌++◌, leb,
  is_empty, if◌then◌else◌, ite, arith, Option-cases, map,
}
use cal_spread_backend.Base.Int.{ℤ, ℤ-discrete}
use cal_spread_backend.Base.Maps.{get, keys, get-put, get-delete}
use cal_spread_backend.Spike.Quote.{Tick}
use cal_spread_backend.Hub.{Ladder, Frame, data_frame, tick_event, Hub, send_locked, send_each}
use cal_spread_backend.Hub.Cache.{
  slim_tick, carries_book, ladder_of, cache_book, cache_tick, cache_ticks, broadcast_locked,
  get_fresh_ladder,
}

-- What the caches hold of a token's book: the book, and when it was received.
abbrev Held : Type 0 → Type 0
Held Num = Option (Ladder Num) × Option ℕ

-- A tick that carries a book of the token.
abbrev pub carries_for : {Num : Type 0} → ℤ → Tick Num → Bool
carries_for token t = ite (ℤ-discrete t.token token) (carries_book t) false

module _ {Num : Type 0} where
  held : ℤ → Hub Num → Held Num
  held token h = (get ℤ-discrete token h.latest_ladder, get ℤ-discrete token h.latest_ladder_at)

  -- The book that a tick leaves, if it is a tick of the token and carries one.
  abbrev book_after : ℤ → ℕ → Tick Num → Held Num → Held Num
  book_after token now t old =
      ite (ℤ-discrete t.token token)
        (if carries_book t
          then elim (ladder_of t) [ none ↦ (none, none) | some l ↦ (some l, some now) ]
          else old)
        old

  book_after_all : ℤ → ℕ → List (Tick Num) → Held Num → Held Num
  book_after_all token now [] old = old
  book_after_all token now (t ∷ ts) old = book_after_all token now ts (book_after token now t old)

  held-cache_tick :
      (token : ℤ) (now : ℕ) (t : Tick Num) (h : Hub Num)
      → held token (cache_tick now t h) ≡ book_after token now t (held token h)
  unfolding held cache_tick cache_book
  held-cache_tick token now t h = elim (Option-cases (ladder_of t)) [
    | inl e ↦ ground (
      arith,
      get-delete ℤ-discrete t.token token h.latest_ladder,
      get-delete ℤ-discrete t.token token h.latest_ladder_at,
    )
    | inr (l, e) ↦ ground (
      arith,
      get-put ℤ-discrete t.token token l h.latest_ladder,
      get-put ℤ-discrete t.token token now h.latest_ladder_at,
    )
  ]

  held-cache_ticks :
      (token : ℤ) (now : ℕ) (ts : List (Tick Num)) (h : Hub Num)
      → held token (cache_ticks now ts h) ≡ book_after_all token now ts (held token h)
  unfolding cache_ticks book_after_all
  held-cache_ticks token now [] h = refl
  held-cache_ticks token now (t ∷ ts) h =
      held-cache_ticks token now ts (cache_tick now t h)
      ∙ ap (book_after_all token now ts) (held-cache_tick token now t h)

  -- A frame to the browsers leaves the caches alone.
  held-send_each :
      (token : ℤ) (ids : List ℕ) (f : Frame Num) (h : Hub Num)
      → held token (send_each ids f h) ≡ held token h
  unfolding send_each
  held-send_each token [] f h = refl
  held-send_each token (id ∷ ids) f h = held-send_each token ids f (send_locked id f h) ∙ one
    where
      one : held token (send_locked id f h) ≡ held token h
      one = unfold held send_locked in ground arith

  held-broadcast_locked :
      (token : ℤ) (now : ℕ) (ts : List (Tick Num)) (h : Hub Num)
      → held token (broadcast_locked now ts h) ≡ book_after_all token now ts (held token h)
  unfolding broadcast_locked
  held-broadcast_locked token now ts h =
      let slim = map slim_tick ts in
      let cached = cache_ticks now ts h in
      let sent : Hub Num = record cached {
        events =
            if is_empty cached.tick_listeners
            then cached.events
            else cached.events ++ tick_event cached.tick_listeners slim ∷ [];
      } in
      let same : held token sent ≡ held token cached = unfold held in refl in
      held-send_each token (keys sent.clients) (data_frame slim) sent
      ∙ same
      ∙ held-cache_ticks token now ts h

  -- Batches of ticks, each with the time at which it comes.
  unfoldable pub broadcast_all : List (ℕ × List (Tick Num)) → Hub Num → Hub Num
  broadcast_all [] h = h
  broadcast_all ((now, ts) ∷ batches) h = broadcast_all batches (broadcast_locked now ts h)

  -- The last tick that carries a book of the token, with its time.
  unfoldable pub last_carrier : ℤ → ℕ → List (Tick Num) → Option (ℕ × Tick Num)
  last_carrier token now [] = none
  last_carrier token now (t ∷ ts) = elim (last_carrier token now ts) [
    | some found ↦ some found
    | none ↦ if carries_for token t then some (now, t) else none
  ]

  unfoldable pub last_carrier_of : ℤ → List (ℕ × List (Tick Num)) → Option (ℕ × Tick Num)
  last_carrier_of token [] = none
  last_carrier_of token ((now, ts) ∷ batches) = elim (last_carrier_of token batches) [
    | some found ↦ some found
    | none ↦ last_carrier token now ts
  ]

  abbrev held_after : Option (ℕ × Tick Num) → Held Num → Held Num
  held_after none old = old
  held_after (some (now, t)) old = elim (ladder_of t) [
    | none ↦ (none, none)
    | some l ↦ (some l, some now)
  ]

  book_after_all-last_carrier :
      (token : ℤ) (now : ℕ) (ts : List (Tick Num)) (old : Held Num)
      → book_after_all token now ts old ≡ held_after (last_carrier token now ts) old
  unfolding book_after_all last_carrier
  book_after_all-last_carrier token now [] old = refl
  book_after_all-last_carrier token now (t ∷ ts) old =
      ground (arith, book_after_all-last_carrier token now ts (book_after token now t old))

  held-broadcast_all :
      (token : ℤ) (batches : List (ℕ × List (Tick Num))) (h : Hub Num)
      → held token (broadcast_all batches h)
        ≡ held_after (last_carrier_of token batches) (held token h)
  unfolding broadcast_all last_carrier_of
  held-broadcast_all token [] h = refl
  held-broadcast_all token ((now, ts) ∷ batches) h = ground (
    arith,
    held-broadcast_all token batches (broadcast_locked now ts h),
    held-broadcast_locked token now ts h,
    book_after_all-last_carrier token now ts (held token h),
  )

  -- After any batches of ticks, the fresh book of a token is that of the last tick which carried one for
  -- it, if that has a level on either side and came no longer ago than the limit; where no tick carried
  -- one it is what it was before.
  pub get_fresh_ladder-broadcast_all :
      (later : ℕ) (token : ℤ) (max_age : ℕ) (batches : List (ℕ × List (Tick Num))) (h : Hub Num)
      → get_fresh_ladder later token max_age (broadcast_all batches h)
        ≡ elim (last_carrier_of token batches) [
          | none ↦ get_fresh_ladder later token max_age h
          | some (now, t) ↦ if leb later (now + max_age) then ladder_of t else none
        ]
  unfolding get_fresh_ladder held
  get_fresh_ladder-broadcast_all later token max_age batches h =
      let e = held-broadcast_all token batches h in
      elim (Option-cases (last_carrier_of token batches)) [
        | inl n ↦ ground (arith, e, n)
        | inr ((now, t), f) ↦ elim (Option-cases (ladder_of t)) [
          | inl n ↦ ground (arith, e, f, n)
          | inr (l, m) ↦ ground (arith, e, f, m)
        ]
      ]
