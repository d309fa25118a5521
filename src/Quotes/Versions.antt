-- ===== src/Quotes/Versions.antt =====
-- The versions and the counters of internal/quotes/quotes.go over any use of the store.
use cal_spread_backend.Base.{
  ℕ, ◌+◌, ◌≤◌, ◌<◌, ◌≡◌, ◌≢◌, ◌∙◌, refl, true, false, ◌&&◌, List, [], ◌∷◌, All, arith, Bool-cases,
  inl, inr, mem, is_empty,
}
use cal_spread_backend.Base.Int.{ℤ, ℤ-discrete}
use cal_spread_backend.Base.Maps.{Map, get, delete, get-put, get-delete}
use cal_spread_backend.Base.Keys.{put-All, delete-All}
use cal_spread_backend.Base.Float.{Float64}
use cal_spread_backend.Spike.Quote.{Tick}
use cal_spread_backend.Quotes.{
  Quote, Store, MathLib, new_store, forget, clear, invalidate_generation, sanitize, authoritative,
  book_of, observed, apply_book, ignored, apply_ticks, levels_of,
}

-- A use of the store.
pub data Use (Num : Type 0) : Type 0 where
  applies : ℕ → List (Tick Num) → Use Num
  forgets : List ℤ → Use Num
  clears : Use Num
  new_generation : Use Num

module _ (fl : Float64) (math : MathLib fl) where
  open fl use {Num}

  unfoldable pub use_store : Use Num → Store Num → Store Num
  use_store (applies at ts) s = (apply_ticks fl math at ts s).0
  use_store (forgets ts) s = forget ts s
  use_store clears s = clear s
  use_store new_generation s = invalidate_generation s

  unfoldable pub use_all : List (Use Num) → Store Num → Store Num
  use_all [] s = s
  use_all (u ∷ us) s = use_all us (use_store u s)

  -- A book stands under its token, with a version that was already given out.
  abbrev pub IsStored : ℕ → ℤ × Quote Num → Type 0
  IsStored next (token, q) = (q.token ≡ token) × (1 ≤ q.version) × (q.version < next)

  -- Each authoritative tick takes one version and is counted once as an update and once as a
  -- usable book or an empty one.
  abbrev pub Accounted : Store Num → Type 0
  Accounted s =
      All (IsStored s.next_version) s.quotes
      × (s.next_version ≡ s.updates + 1)
      × (s.diag.authoritative_observations ≡ s.updates)
      × (s.diag.usable_book_updates + s.diag.empty_invalidations ≡ s.updates)

  later-IsStored : (n : ℕ) (m : Map ℤ (Quote Num)) → All (IsStored n) m → All (IsStored (n + 1)) m
  later-IsStored n [] h = tt
  later-IsStored n ((t, q) ∷ m) h = ((h.0.0, h.0.1, omega (arith, h.0.2)), later-IsStored n m h.1)

  apply_book-Accounted :
      (at : ℕ) (t : Tick Num) (s : Store Num) → Accounted s → Accounted (apply_book fl math at t s)
  unfolding apply_book observed book_of
  apply_book-Accounted at t s (stored, next, seen, split) =
      let bids = sanitize fl math (levels_of fl math t.bids) true in
      let asks = sanitize fl math (levels_of fl math t.asks) false in
      let later = later-IsStored s.next_version s.quotes stored in
      elim (Bool-cases (is_empty bids.0 && is_empty asks.0)) [
        | inl dry ↦
            rw (dry, apply_book)
              (
                delete-All ℤ-discrete (IsStored (s.next_version + 1)) t.token s.quotes later,
                omega arith,
                omega arith,
                omega arith,
              )
        | inr full ↦
            rw (full, apply_book)
              (
                put-All ℤ-discrete (IsStored (s.next_version + 1)) t.token
                    (book_of fl math t s.next_version at bids.0 asks.0) s.quotes
                    (refl, omega arith, omega arith) later,
                omega arith,
                omega arith,
                omega arith,
              )
      ]

  apply_ticks-Accounted :
      (at : ℕ) (ts : List (Tick Num)) (s : Store Num)
      → Accounted s
      → Accounted (apply_ticks fl math at ts s).0
  unfolding apply_ticks
  apply_ticks-Accounted at [] s h = h
  apply_ticks-Accounted at (t ∷ ts) s h = elim (Bool-cases (authoritative fl math t)) [
    | inl yes_book ↦
        rw yes_book
          (apply_ticks-Accounted at ts (apply_book fl math at t s) (apply_book-Accounted at t s h))
    | inr no_book ↦ rw no_book (apply_ticks-Accounted at ts (ignored fl math s) h)
  ]

  forget-Accounted : (ts : List ℤ) (s : Store Num) → Accounted s → Accounted (forget ts s)
  unfolding forget
  forget-Accounted [] s h = h
  forget-Accounted (t ∷ ts) s (stored, a, b, c) =
      forget-Accounted ts (record s { quotes = delete ℤ-discrete t s.quotes })
        (delete-All ℤ-discrete (IsStored s.next_version) t s.quotes stored, a, b, c)

  use_store-Accounted : (u : Use Num) (s : Store Num) → Accounted s → Accounted (use_store u s)
  unfolding use_store clear invalidate_generation
  use_store-Accounted (applies at ts) s h = apply_ticks-Accounted at ts s h
  use_store-Accounted (forgets ts) s h = forget-Accounted ts s h
  use_store-Accounted clears s (stored, a, b, c) = (tt, a, b, c)
  use_store-Accounted new_generation s (stored, a, b, c) = (tt, a, b, c)

  use_all-from : (us : List (Use Num)) (s : Store Num) → Accounted s → Accounted (use_all us s)
  unfolding use_all
  use_all-from [] s h = h
  use_all-from (u ∷ us) s h = use_all-from us (use_store u s) (use_store-Accounted u s h)

  -- After any use of the store, every book stands under its token with a version that was given out
  -- before, one version was given out for each update, and every update was a usable book or an empty
  -- one.
  pub use_all-Accounted : (us : List (Use Num)) → Accounted (use_all us new_store)
  unfolding new_store
  use_all-Accounted us = use_all-from us new_store (tt, refl, refl, refl)

  apply_book_other :
      (at : ℕ) (t : Tick Num) (s : Store Num) (token : ℤ)
      → t.token ≢ token
      → get ℤ-discrete token (apply_book fl math at t s).quotes ≡ get ℤ-discrete token s.quotes
  unfolding apply_book observed
  apply_book_other at t s token h =
      let bids = sanitize fl math (levels_of fl math t.bids) true in
      let asks = sanitize fl math (levels_of fl math t.asks) false in
      ground (
        arith,
        h,
        get-delete ℤ-discrete t.token token s.quotes,
        get-put ℤ-discrete t.token token (book_of fl math t s.next_version at bids.0 asks.0)
            s.quotes,
      )

  -- A batch leaves the book of every token alone that it does not report as changed.
  pub apply_ticks_unchanged :
      (at : ℕ) (ts : List (Tick Num)) (s : Store Num) (token : ℤ)
      → mem ℤ-discrete token (apply_ticks fl math at ts s).1 ≡ false
      → get ℤ-discrete token (apply_ticks fl math at ts s).0.quotes ≡ get ℤ-discrete token s.quotes
  unfolding apply_ticks mem
  apply_ticks_unchanged at [] s token h = refl
  apply_ticks_unchanged at (t ∷ ts) s token h = elim (Bool-cases (authoritative fl math t)) [
    | inl book ↦
        let s' = apply_book fl math at t s in
        let other : t.token ≢ token = λ same. absurd (ground (arith, h, book, same)) in
        rw book (
          apply_ticks_unchanged at ts s' token (ground (arith, h, book))
          ∙ apply_book_other at t s token other)
    | inr none_new ↦
        rw none_new
          (apply_ticks_unchanged at ts (ignored fl math s) token (ground (arith, h, none_new)))
  ]
