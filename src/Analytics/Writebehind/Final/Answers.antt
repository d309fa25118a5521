-- ===== src/Analytics/Writebehind/Final/Answers.antt =====
-- internal/analytics/writebehind.go: the answers of FlushNow.
use cal_spread_backend.Base.{
  ℕ, ◌≡◌, refl, subst, ◌⊎◌, Bool, true, false, ◌||◌, none, some, List, [], ◌∷◌, String, is_empty,
  arith, Option-cases, Bool-cases, inl, inr,
}
use cal_spread_backend.Base.Maps.{keys}
use cal_spread_backend.Analytics.Writebehind.{Service, FlushBatch, has_pending, begin_flush}
use cal_spread_backend.Analytics.Writebehind.Flights.{System, settles}
use cal_spread_backend.Analytics.Writebehind.Final.{
  Late, late_end, Attempt, Answer, flushed, cancelled, incomplete, act, act_all, run_flush, answer,
  attempts, flush_now,
}
use cal_spread_backend.Analytics.Writebehind.Final.Others.{
  Ready, Sending, some_begin, act-Ready, act_all-Ready, act_all-in_flight, run_flush_lem,
}

-- Whether the others begin a flush in one of the attempts or after them.
abbrev pub some_flush : {V : Type 0} → List (Attempt V) → List (Late V) → Bool
some_flush [] last = some_begin last
some_flush (a ∷ rest) last =
    some_begin a.before || some_begin a.during || some_begin a.after || some_flush rest last

-- Whether the context ends in one of the attempts.
abbrev pub some_cut : {V : Type 0} → List (Attempt V) → Bool
some_cut [] = false
some_cut (a ∷ rest) = a.ends_waiting || a.ended || some_cut rest

-- Whether the answer is true of what is left, with whether the context has ended and whether the others
-- have begun a flush.
abbrev Says : {V : Type 0} → Bool → Bool → System V × Answer → Type 0
Says cut other (s, flushed) =
    (has_pending s.service ≡ false) × ((s.in_flight ≡ none) ⊎ (other ≡ true))
Says cut other (s, cancelled) = cut ≡ true
Says cut other (s, incomplete hs ps) =
    (has_pending s.service ≡ true)
    × (hs ≡ keys s.service.pending_hash)
    × (ps ≡ keys s.service.pending_plain)

abbrev pub Truthful : {V : Type 0} → List (Attempt V) → List (Late V) → System V × Answer → Type 0
Truthful env last r = Says (some_cut env) (some_flush env last) r

module _ {V : Type 0} (marshal : V → String) where
  Says-answer :
      (cut other : Bool) (s : System V)
      → (s.in_flight ≡ none) ⊎ (other ≡ true)
      → Says cut other (s, answer s.service)
  unfolding answer
  Says-answer cut other s landed = elim (Bool-cases (has_pending s.service)) [
    | inl left ↦
        subst (λ x. Says cut other (s, x))
          {x = incomplete (keys s.service.pending_hash) (keys s.service.pending_plain)}
          (ground (arith, left)) (left, refl, refl)
    | inr done ↦
        subst (λ x. Says cut other (s, x)) {x = flushed} (ground (arith, done)) (done, landed)
  ]

  begin_flush-left :
      (now : ℕ) (s : Service V)
      → s.cache_enabled ≡ true
      → s.flush_in_flight ≡ false
      → (begin_flush marshal true now s).1 ≡ none
      → (has_pending s ≡ false) × ((begin_flush marshal true now s).0 ≡ s)
  unfolding begin_flush
  begin_flush-left now s on idle h = (ground (arith, on, idle, h), ground (arith, on, idle, h))

  begin_flush-Sending :
      (now : ℕ) (b : FlushBatch V) (s : System V)
      → Ready s
      → s.in_flight ≡ none
      → (begin_flush marshal true now s.service).1 ≡ some b
      → Sending (record s { service = (begin_flush marshal true now s.service).0 })
  unfolding begin_flush
  begin_flush-Sending now b s h n e = record {
    enabled = ground (arith, h.enabled);
    flag = ground (arith, e);
    alone = n;
  }

  settles-in_flight : (ok : Bool) (s : System V) → (settles marshal ok s).in_flight ≡ none
  settles-in_flight ok s = ground arith

  settles-Ready : (ok : Bool) (s : System V) → Ready s → Ready (settles marshal ok s)
  unfolding act
  settles-Ready ok s h = act-Ready marshal (late_end ok) s h

  -- The state after the others have gone on without a flush in flight.
  gone_on :
      (other : Bool) (ls : List (Late V)) (s : System V)
      → (some_begin ls ≡ true → other ≡ true)
      → (s.in_flight ≡ none) ⊎ (other ≡ true)
      → ((act_all marshal ls s).in_flight ≡ none) ⊎ (other ≡ true)
  gone_on other ls s h (inr began) = inr began
  gone_on other ls s h (inl n) = elim (act_all-in_flight marshal ls s n) [
    | inl m ↦ inl m
    | inr began ↦ inr (h began)
  ]

  module _ (last : List (Late V)) (cut other : Bool) where
    abbrev Later : List (Attempt V) → Type 0
    Later rest =
        (t : System V)
        → Ready t
        → (t.in_flight ≡ none) ⊎ (other ≡ true)
        → Says cut other (attempts marshal rest last t)

    attempts-waiting :
        (a : Attempt V) (rest : List (Attempt V)) (b : FlushBatch V) (s : System V)
        → Ready (act_all marshal a.before s)
        → (act_all marshal a.before s).in_flight ≡ some b
        → (some_cut (a ∷ rest) ≡ true → cut ≡ true)
        → (some_begin a.after ≡ true → other ≡ true)
        → Later rest
        → Says cut other (attempts marshal (a ∷ rest) last s)
    unfolding attempts
    attempts-waiting a rest b s h e cuts begins_after later =
        let goal : System V × Answer → Type 0 = Says cut other in
        let waited = act_all marshal a.during (act_all marshal a.before s) in
        let landed = settles marshal a.landed waited in
        let next = act_all marshal a.after landed in
        let ready = act_all-Ready marshal a.after landed (
          settles-Ready a.landed waited
            (act_all-Ready marshal a.during (act_all marshal a.before s) h)) in
        let flight = h.single in
        elim (Bool-cases a.ends_waiting) [
          | inl ends ↦
              subst goal {x = (waited, cancelled)} {y = attempts marshal (a ∷ rest) last s}
                (ground (arith, e, flight, ends)) (cuts (ground (arith, ends)))
          | inr stays ↦
              subst goal {x = attempts marshal rest last next}
                {y = attempts marshal (a ∷ rest) last s} (ground (arith, e, flight, stays))
                (later next ready (
                  gone_on other a.after landed begins_after
                    (inl (settles-in_flight a.landed waited))))
        ]

    attempts-sending :
        (a : Attempt V) (rest : List (Attempt V)) (s : System V)
        → Ready (act_all marshal a.before s)
        → (act_all marshal a.before s).in_flight ≡ none
        → (some_cut (a ∷ rest) ≡ true → cut ≡ true)
        → (some_begin a.after ≡ true → other ≡ true)
        → Later rest
        → Says cut other (attempts marshal (a ∷ rest) last s)
    unfolding attempts
    attempts-sending a rest s₀ h n cuts begins_after later =
        let s = act_all marshal a.before s₀ in
        let begun = begin_flush marshal true a.now s.service in
        let flight : s.service.flush_in_flight ≡ false = ground (arith, h.single, n) in
        let reads : (r : System V × Answer)
            → r ≡ attempts marshal (a ∷ rest) last s₀
            → Says cut other r
            → Says cut other (attempts marshal (a ∷ rest) last s₀) =
          λ r p t. subst (Says cut other) p t in
        elim (Option-cases begun.1) [
          | inl nothing ↦
              let left = begin_flush-left a.now s.service h.enabled flight nothing in
              let idle : System V = record s { service = begun.0 } in
              reads (idle, flushed) (ground (arith, n, flight, nothing))
                (ground (arith, left.0, left.1), inl n)
          | inr (b, e) ↦
              let started : System V = record s { service = begun.0 } in
              let ran = run_flush marshal a b started in
              let next = act_all marshal a.after ran in
              let lem = run_flush_lem marshal a b started (begin_flush-Sending a.now b s h n e) in
              let ready = act_all-Ready marshal a.after ran lem.0 in
              let flying = gone_on other a.after ran begins_after (inl lem.1) in
              elim (Bool-cases (has_pending next.service)) [
                | inr clean ↦
                    reads (next, flushed) (ground (arith, n, flight, e, clean)) (clean, flying)
                | inl left ↦ elim (Bool-cases a.ended) [
                  | inl ends ↦
                      reads (next, cancelled) (ground (arith, n, flight, e, left, ends))
                        (cuts (ground (arith, ends)))
                  | inr on ↦
                      reads (attempts marshal rest last next)
                        (ground (arith, n, flight, e, left, on)) (later next ready flying)
                ]
              ]
        ]

    attempts-Says :
        (env : List (Attempt V)) (s : System V)
        → Ready s
        → (is_empty env ≡ true → (s.in_flight ≡ none) ⊎ (other ≡ true))
        → (some_cut env ≡ true → cut ≡ true)
        → (some_flush env last ≡ true → other ≡ true)
        → Says cut other (attempts marshal env last s)
    unfolding attempts
    attempts-Says [] s h landed cuts begun =
        Says-answer cut other (act_all marshal last s) (gone_on other last s begun (landed refl))
    attempts-Says (a ∷ rest) s h landed cuts begun =
        let before = act_all marshal a.before s in
        let ready = act_all-Ready marshal a.before s h in
        let later : Later rest = λ t r f.
          attempts-Says rest t r (λ _. f) (λ p. cuts (ground (arith, p)))
            (λ p. begun (ground (arith, p))) in
        elim (Option-cases before.in_flight) [
          | inr (b, e) ↦
              attempts-waiting a rest b s ready e cuts (λ p. begun (ground (arith, p))) later
          | inl n ↦ attempts-sending a rest s ready n cuts (λ p. begun (ground (arith, p))) later
        ]

  -- Whatever is queued meanwhile and whatever flushes of other goroutines begin and end, the final flush
  -- of an enabled cache, with at most one flush in flight at first, says that all is written only if nothing
  -- is left in the buffer, and nothing is in flight unless another goroutine has begun a flush meanwhile; it
  -- names the keys of what is left if it gives up, and it says that it was cancelled only if the context
  -- ended.
  pub flush_now-Truthful :
      (env : ℕ → Attempt V) (last : List (Late V)) (s : System V)
      → Ready s
      → Truthful (env 0 ∷ env 1 ∷ env 2 ∷ env 3 ∷ []) last (flush_now marshal env last s)
  unfolding flush_now
  flush_now-Truthful env last s h =
      let four = env 0 ∷ env 1 ∷ env 2 ∷ env 3 ∷ [] in
      attempts-Says last (some_cut four) (some_flush four last) four s h
        (λ e. absurd (ground (arith, e))) (λ p. p) (λ p. p)
