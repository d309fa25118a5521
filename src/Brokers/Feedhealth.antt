-- ===== src/Brokers/Feedhealth.antt =====
-- internal/brokers/feedhealth.go: how the feed is classified. The detail is a constructor for each of
-- the source's sentences, with the numbers that the sentence prints.
pub mod Usable
pub mod Tests
use cal_spread_backend.Base.{
  ℕ, ◌-◌, Bool, true, false, not, ◌&&◌, Option, none, some, ltb, ◌==◌, if◌then◌else◌,
}

pub data FeedState : Type 0 where
  feed_down feed_connecting feed_connected_no_subscription feed_live feed_stale : FeedState

pub data Detail : Type 0 where
  no_session connecting not_connected nothing_subscribed : Detail
  waiting_for_tick : ℕ → Detail
  no_tick_for : ℕ → ℕ → Detail
  last_tick_ago : ℕ → ℕ → Detail

pub record FeedHealth : Type 0 where
  pub connected : Bool
  pub subscribed : ℕ
  pub universe : Option ℕ
  pub feed_age_ms : Option ℕ
  pub last_tick_at : Option ℕ
  pub state : FeedState
  pub detail : Detail

pub record FeedHealthInput : Type 0 where
  pub connected : Bool
  pub connecting : Bool
  pub authenticated : Bool
  pub subscribed : ℕ
  pub universe : Option ℕ
  pub last_tick_at : Option ℕ
  pub stale_after_ms : ℕ
  pub now_ms : ℕ

abbrev pub stale_after : FeedHealthInput → ℕ
stale_after x = if x.stale_after_ms == 0 then 30000 else x.stale_after_ms

abbrev pub age_of : FeedHealthInput → Option ℕ
age_of x = elim x.last_tick_at [ none ↦ none | some at ↦ some (x.now_ms - at) ]

-- The cases of the switch, in its order.
unfoldable pub classify : FeedHealthInput → FeedState × Detail
classify x =
    if not x.authenticated
    then (feed_down, no_session)
    else if not x.connected && x.connecting
    then (feed_connecting, connecting)
    else if not x.connected
    then (feed_down, not_connected)
    else if x.subscribed == 0
    then (feed_connected_no_subscription, nothing_subscribed)
    else elim (age_of x) [
      | none ↦ (feed_connecting, waiting_for_tick x.subscribed)
      | some age ↦
          if ltb (stale_after x) age
          then (feed_stale, no_tick_for age x.subscribed)
          else (feed_live, last_tick_ago x.subscribed age)
    ]

unfoldable pub compute_feed_health : FeedHealthInput → FeedHealth
compute_feed_health x = record {
  connected = x.connected;
  subscribed = x.subscribed;
  universe = x.universe;
  feed_age_ms = age_of x;
  last_tick_at = x.last_tick_at;
  state = (classify x).0;
  detail = (classify x).1;
}

unfoldable pub is_usable : FeedHealth → Bool
is_usable h = elim h.state [ feed_live ↦ true | _ ↦ false ]
