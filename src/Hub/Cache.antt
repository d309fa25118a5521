-- ===== src/Hub/Cache.antt =====
-- internal/hub/hub.go: the operations on the caches, the listeners and the sockets.
use cal_spread_backend.Base.{
  ℕ, suc, ◌+◌, Bool, true, false, not, ◌&&◌, ◌||◌, Option, none, some, List, [], ◌∷◌, ◌++◌, leb,
  ◌==◌, is_empty, is_some, mem, remove, map, if◌then◌else◌, String, ℕ_discrete,
}
use cal_spread_backend.Base.Int.{ℤ, ℤ-discrete}
use cal_spread_backend.Base.Maps.{Map, get, put, delete}
use cal_spread_backend.Spike.Quote.{DepthLevel, Tick}
use cal_spread_backend.Hub.{
  Ladder, data_frame, kite_error_frame, Client, tick_event, connection_event, dead_event,
  unsubscribe_some, Hub, send_all_locked, ensure_socket_locked, notify_locked, stop,
}

-- The tokens that some browser asks for.
unfoldable pub is_wanted : {Num : Type 0} → ℤ → Map ℕ (Client Num) → Bool
is_wanted t [] = false
is_wanted t ((id, c) ∷ clients) = mem ℤ-discrete t c.tokens || is_wanted t clients

abbrev pub nonzero_time : Option ℕ → Option ℕ
nonzero_time (some (suc n)) = some (suc n)
nonzero_time _ = none

module _ {Num : Type 0} where
  -- `Seed`.
  unfoldable pub seed : List (Tick Num) → Hub Num → Hub Num
  seed [] h = h
  seed (t ∷ ts) h = seed ts (record h { latest = put ℤ-discrete t.token t h.latest })

  -- `Retain` and `RetainFanout`: the first opens the socket.
  unfoldable pub retain_fanout : Hub Num → Hub Num
  retain_fanout h = record h {
    retain_seq = h.retain_seq + 1;
    retainers = (h.retain_seq + 1) ∷ h.retainers;
  }

  unfoldable pub retain : Bool → List ℤ → Hub Num → Hub Num
  retain session tokens h = ensure_socket_locked session tokens (retain_fanout h)

  unfoldable pub release_fanout : ℕ → Hub Num → Hub Num
  release_fanout key h = record h { retainers = remove ℕ_discrete key h.retainers }

  unfoldable pub release_retained : ℕ → Hub Num → Hub Num
  release_retained key h =
      let left = release_fanout key h in
      if is_empty left.clients && is_empty left.retainers then stop left else left

  unfoldable pub subscribe_tokens : Bool → List ℤ → Hub Num → Hub Num
  subscribe_tokens session tokens h =
      if is_empty tokens then h else ensure_socket_locked session tokens h

  unfoldable pub dropped_tokens : List ℤ → Hub Num → List ℤ
  dropped_tokens [] h = []
  dropped_tokens (t ∷ ts) h =
      if not (is_wanted t h.clients) && mem ℤ-discrete t h.subscribed
      then t ∷ dropped_tokens ts h
      else dropped_tokens ts h

  unfoldable pub drop_tokens : List ℤ → Hub Num → Hub Num
  drop_tokens [] h = h
  drop_tokens (t ∷ ts) h = drop_tokens ts (record h {
    subscribed = remove ℤ-discrete t h.subscribed;
    latest = delete ℤ-discrete t h.latest;
    latest_at = delete ℤ-discrete t h.latest_at;
    latest_ladder = delete ℤ-discrete t h.latest_ladder;
    latest_ladder_at = delete ℤ-discrete t h.latest_ladder_at;
  })

  unfoldable pub unsubscribe_tokens : List ℤ → Hub Num → Hub Num
  unsubscribe_tokens tokens h =
      let dropped = dropped_tokens tokens h in
      if is_empty dropped
      then h
      else let left = drop_tokens dropped h in
        elim left.sock [
          | none ↦ left
          | some id ↦ record left { calls = left.calls ++ unsubscribe_some id dropped ∷ [] }
        ]

  unfoldable pub add_tick_listener : ℕ → Hub Num → Hub Num
  add_tick_listener l h = record h { tick_listeners = h.tick_listeners ++ l ∷ [] }

  unfoldable pub remove_tick_listener : ℕ → Hub Num → Hub Num
  remove_tick_listener l h = record h { tick_listeners = remove ℕ_discrete l h.tick_listeners }

  -- A new listener is told of the current state first.
  unfoldable pub add_connection_listener : ℕ → Hub Num → Hub Num
  add_connection_listener l h = record h {
    conn_listeners = h.conn_listeners ++ l ∷ [];
    events = h.events ++ connection_event (l ∷ []) h.connected ∷ [];
  }

  unfoldable pub remove_connection_listener : ℕ → Hub Num → Hub Num
  remove_connection_listener l h = record h {
    conn_listeners = remove ℕ_discrete l h.conn_listeners;
  }

  -- The slim copy of a tick, without the broker's own fields.
  unfoldable pub slim_tick : Tick Num → Tick Num
  slim_tick t = record t {
    exchange_ts = nonzero_time t.exchange_ts;
    average_price = none;
    price_updated = none;
    average_updated = none;
    namespace = none;
  }

  -- A tick that says nothing of its depth counts if it has a ladder.
  unfoldable pub carries_book : Tick Num → Bool
  carries_book t = elim t.depth_updated [ none ↦ is_some t.bids || is_some t.asks | some b ↦ b ]

  abbrev pub levels_of : Option (List (DepthLevel Num)) → List (DepthLevel Num)
  levels_of none = []
  levels_of (some ls) = ls

  -- The book of a tick, unless both of its sides are empty.
  unfoldable pub ladder_of : Tick Num → Option (Ladder Num)
  ladder_of t =
      if is_empty (levels_of t.bids) && is_empty (levels_of t.asks)
      then none
      else some (record { last = t.last_price; bids = levels_of t.bids; asks = levels_of t.asks })

  unfoldable pub cache_book : ℕ → Tick Num → Hub Num → Hub Num
  cache_book now t h = if not (carries_book t) then h else elim (ladder_of t) [
    | some l ↦ record h {
      latest_ladder = put ℤ-discrete t.token l h.latest_ladder;
      latest_ladder_at = put ℤ-discrete t.token now h.latest_ladder_at;
    }
    | none ↦ record h {
      latest_ladder = delete ℤ-discrete t.token h.latest_ladder;
      latest_ladder_at = delete ℤ-discrete t.token h.latest_ladder_at;
    }
  ]

  unfoldable pub cache_tick : ℕ → Tick Num → Hub Num → Hub Num
  cache_tick now t h = cache_book now t (record h {
    latest = put ℤ-discrete t.token (slim_tick t) h.latest;
    latest_at = put ℤ-discrete t.token now h.latest_at;
  })

  unfoldable pub cache_ticks : ℕ → List (Tick Num) → Hub Num → Hub Num
  cache_ticks now [] h = h
  cache_ticks now (t ∷ ts) h = cache_ticks now ts (cache_tick now t h)

  unfoldable pub broadcast_locked : ℕ → List (Tick Num) → Hub Num → Hub Num
  broadcast_locked now ticks h =
      let slim = map slim_tick ticks in
      let cached = cache_ticks now ticks h in
      send_all_locked (data_frame slim) (record cached {
        events =
            if is_empty cached.tick_listeners
            then cached.events
            else cached.events ++ tick_event cached.tick_listeners slim ∷ [];
      })

  unfoldable pub ingest_external_ticks : ℕ → List (Tick Num) → Hub Num → Hub Num
  ingest_external_ticks now ticks h = if is_empty ticks then h else broadcast_locked now ticks h

  -- Whether the socket is the live one.
  unfoldable pub is_current : ℕ → Hub Num → Bool
  is_current id h = elim h.sock [ none ↦ false | some live ↦ live == id ]

  unfoldable pub on_socket_tick : ℕ → ℕ → List (Tick Num) → Hub Num → Hub Num
  on_socket_tick now id ticks h = if is_current id h then broadcast_locked now ticks h else h

  unfoldable pub on_socket_open : ℕ → Hub Num → Hub Num
  on_socket_open id h = if is_current id h then notify_locked true h else h

  unfoldable pub on_socket_close : ℕ → Hub Num → Hub Num
  on_socket_close id h =
      if is_current id h then notify_locked false (record h { sock = none }) else h

  -- The first argument tells whether `OnDead` is set.
  unfoldable pub fail : Bool → String → Hub Num → Hub Num
  fail on_dead message h = stop (
      send_all_locked (kite_error_frame message)
        (if on_dead then record h { events = h.events ++ dead_event ∷ [] } else h))

  unfoldable pub on_socket_error : Bool → ℕ → String → Hub Num → Hub Num
  on_socket_error on_dead id message h = if is_current id h then fail on_dead message h else h

  unfoldable pub get_fresh_ladder : ℕ → ℤ → ℕ → Hub Num → Option (Ladder Num)
  get_fresh_ladder now token max_age h = elim (get ℤ-discrete token h.latest_ladder) [
    | none ↦ none
    | some l ↦ elim (get ℤ-discrete token h.latest_ladder_at) [
      | none ↦ none
      | some at ↦ if leb now (at + max_age) then some l else none
    ]
  ]
