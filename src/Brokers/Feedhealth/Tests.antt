-- ===== src/Brokers/Feedhealth/Tests.antt =====
-- A concrete feed.
use cal_spread_backend.Base.{◌≡◌, ◌↔◌, true, false, none, some}
use cal_spread_backend.Brokers.Feedhealth.{FeedHealthInput, compute_feed_health, is_usable}
use cal_spread_backend.Brokers.Feedhealth.Usable.{Trusted, is_usable_iff}

abbrev input : FeedHealthInput
input = record {
  connected = true;
  connecting = false;
  authenticated = true;
  subscribed = 3;
  universe = none;
  last_tick_at = some 1000;
  stale_after_ms = 0;
  now_ms = 2000;
}

is_usable_iff_example : (is_usable (compute_feed_health input) ≡ true) ↔ Trusted input
is_usable_iff_example = is_usable_iff input
