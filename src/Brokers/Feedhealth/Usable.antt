-- ===== src/Brokers/Feedhealth/Usable.antt =====
-- When internal/brokers/feedhealth.go lets prices be trusted.
use cal_spread_backend.Base.{ℕ, ◌-◌, ◌≤◌, ◌<◌, ◌≡◌, ◌↔◌, true, some, Option-cases, inl, inr, arith}
use cal_spread_backend.Brokers.Feedhealth.{
  FeedHealthInput, compute_feed_health, classify, is_usable, stale_after,
}

-- The session is there, the feed is connected, something is subscribed, and the last tick is not
-- older than the limit.
abbrev pub Trusted : FeedHealthInput → Type 0
Trusted x =
    (x.authenticated ≡ true)
    × (x.connected ≡ true)
    × (0 < x.subscribed)
    × ((at : ℕ) × ((x.last_tick_at ≡ some at) × (x.now_ms - at ≤ stale_after x)))

usable-Trusted : (x : FeedHealthInput) → is_usable (compute_feed_health x) ≡ true → Trusted x
unfolding is_usable compute_feed_health classify
usable-Trusted x h = elim (Option-cases x.last_tick_at) [
  | inl quiet ↦ absurd (ground (arith, h, quiet))
  | inr (at, ticked) ↦ (
    ground (arith, h, ticked),
    ground (arith, h, ticked),
    ground (arith, h, ticked),
    (at, (ticked, ground (arith, h, ticked))),
  )
]

Trusted-usable : (x : FeedHealthInput) → Trusted x → is_usable (compute_feed_health x) ≡ true
unfolding is_usable compute_feed_health classify
Trusted-usable x (session, up, some_tokens, (at, (ticked, young))) =
    ground (arith, session, up, some_tokens, ticked, young)

-- Prices are usable exactly if there is a session, the feed is connected, something is subscribed,
-- and the last tick is not older than the limit (30 seconds if none is given).
pub is_usable_iff : (x : FeedHealthInput) → (is_usable (compute_feed_health x) ≡ true) ↔ Trusted x
is_usable_iff x = (usable-Trusted x, Trusted-usable x)
