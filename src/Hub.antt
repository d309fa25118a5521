-- ===== src/Hub.antt =====
-- internal/hub/hub.go: the latest ticks and books, the browsers and listeners that are told of them,
-- and the hub's own socket. A browser, a listener and a socket are their numbers. The frames that a
-- browser's writer has still to write are a list, and the calls to the socket and the callbacks that
-- are due are lists too, in order. Times are epoch milliseconds.
pub mod Cache
pub mod Books
pub mod Clients
pub mod Tests
use cal_spread_backend.Base.{
  ℕ, zero, suc, ◌+◌, ◌-◌, Bool, true, false, not, ◌&&◌, ◌||◌, Option, none, some, List, [], ◌∷◌,
  ◌++◌, ltb, leb, ◌==◌, length, is_empty, is_some, mem, remove, if◌then◌else◌, ite, String,
  ℕ_discrete,
}
use cal_spread_backend.Base.Int.{ℤ, ℤ-discrete}
use cal_spread_backend.Base.Maps.{Map, get, put, delete, keys}
use cal_spread_backend.Spike.Quote.{DepthLevel, Tick}

abbrev default_ladder_max_age_ms : ℕ
default_ladder_max_age_ms = 5000

abbrev pub default_client_queue : ℕ
default_client_queue = 1024

module _ (Num : Type 0) where
  pub record Ladder : Type 0 where
    pub last : Num
    pub bids : List (DepthLevel Num)
    pub asks : List (DepthLevel Num)

  -- A frame of the event stream: ticks, or the broker's error.
  pub data Frame : Type 0 where
    data_frame : List (Tick Num) → Frame
    kite_error_frame : String → Frame

  -- The tokens of a browser, the frames that wait for it and those that its writer has taken.
  pub record Client : Type 0 where
    pub tokens : List ℤ
    pub frames : List Frame
    pub written : List Frame

  -- A callback that is due: the listeners it was queued for.
  pub data Event : Type 0 where
    tick_event : List ℕ → List (Tick Num) → Event
    connection_event : List ℕ → Bool → Event
    dead_event : Event

  -- A call to a socket.
  pub data SocketCall : Type 0 where
    connect : ℕ → List ℤ → SocketCall
    subscribe_more : ℕ → List ℤ → SocketCall
    unsubscribe_some : ℕ → List ℤ → SocketCall
    close : ℕ → SocketCall

  pub record Hub : Type 0 where
    pub client_queue : ℕ
    pub sock : Option ℕ
    pub sock_seq : ℕ
    pub clients : Map ℕ Client
    pub halted : List ℕ
    pub subscribed : List ℤ
    pub retainers : List ℕ
    pub retain_seq : ℕ
    pub tick_listeners : List ℕ
    pub conn_listeners : List ℕ
    pub connected : Bool
    pub latest : Map ℤ (Tick Num)
    pub latest_at : Map ℤ ℕ
    pub latest_ladder : Map ℤ Ladder
    pub latest_ladder_at : Map ℤ ℕ
    pub events : List Event
    pub calls : List SocketCall

-- The tokens that are not subscribed yet, duplicates kept.
unfoldable pub fresh_tokens : List ℤ → List ℤ → List ℤ
fresh_tokens [] subscribed = []
fresh_tokens (t ∷ ts) subscribed =
    if mem ℤ-discrete t subscribed
    then fresh_tokens ts subscribed
    else t ∷ fresh_tokens ts subscribed

-- `tokenSet.add`, in the order of insertion.
unfoldable pub add_tokens : List ℤ → List ℤ → List ℤ
add_tokens [] subscribed = subscribed
add_tokens (t ∷ ts) subscribed =
    add_tokens ts (if mem ℤ-discrete t subscribed then subscribed else subscribed ++ t ∷ [])

module _ {Num : Type 0} where
  unfoldable pub new_hub : ℕ → Hub Num
  new_hub client_queue = record {
    client_queue = if client_queue == 0 then default_client_queue else client_queue;
    sock = none;
    sock_seq = 0;
    clients = [];
    halted = [];
    subscribed = [];
    retainers = [];
    retain_seq = 0;
    tick_listeners = [];
    conn_listeners = [];
    connected = false;
    latest = [];
    latest_at = [];
    latest_ladder = [];
    latest_ladder_at = [];
    events = [];
    calls = [];
  }

  -- Queues a frame for one browser; a full queue drops the browser.
  unfoldable pub send_locked : ℕ → Frame Num → Hub Num → Hub Num
  send_locked id frame h = elim (get ℕ_discrete id h.clients) [
    | none ↦ h
    | some c ↦
        if ltb (length c.frames) h.client_queue
        then record h {
          clients = put ℕ_discrete id (record c { frames = c.frames ++ frame ∷ [] }) h.clients;
        }
        else record h { clients = delete ℕ_discrete id h.clients; halted = h.halted ++ id ∷ [] }
  ]

  unfoldable pub send_each : List ℕ → Frame Num → Hub Num → Hub Num
  send_each [] frame h = h
  send_each (id ∷ ids) frame h = send_each ids frame (send_locked id frame h)

  abbrev pub send_all_locked : Frame Num → Hub Num → Hub Num
  send_all_locked frame h = send_each (keys h.clients) frame h

  -- The cached ticks of the tokens that have one.
  unfoldable pub snapshot_ticks : List ℤ → Map ℤ (Tick Num) → List (Tick Num)
  snapshot_ticks [] latest = []
  snapshot_ticks (t ∷ ts) latest = elim (get ℤ-discrete t latest) [
    | none ↦ snapshot_ticks ts latest
    | some tick ↦ tick ∷ snapshot_ticks ts latest
  ]

  unfoldable pub snapshot_locked : ℕ → List ℤ → Hub Num → Hub Num
  snapshot_locked id tokens h =
      let snap = snapshot_ticks tokens h.latest in
      if is_empty snap then h else send_locked id (data_frame snap) h

  abbrev pub add_client_entry : ℕ → List ℤ → Hub Num → Hub Num
  add_client_entry id tokens h = record h {
    clients = put ℕ_discrete id (record { tokens = tokens; frames = []; written = [] }) h.clients;
  }

  unfoldable pub attach_client : ℕ → List ℤ → Hub Num → Hub Num
  attach_client id tokens h = snapshot_locked id tokens (add_client_entry id tokens h)

  -- `session` tells whether there is an access token.
  unfoldable pub ensure_socket_locked : Bool → List ℤ → Hub Num → Hub Num
  ensure_socket_locked session tokens h =
      let fresh = fresh_tokens tokens h.subscribed in
      let subscribed = add_tokens fresh h.subscribed in
      if not session then h else elim h.sock [
        | none ↦ record h {
          subscribed = subscribed;
          sock = some (h.sock_seq + 1);
          sock_seq = h.sock_seq + 1;
          calls = h.calls ++ connect (h.sock_seq + 1) subscribed ∷ [];
        }
        | some id ↦ if is_empty fresh then h else record h {
          subscribed = subscribed;
          calls = h.calls ++ subscribe_more id fresh ∷ [];
        }
      ]

  unfoldable pub add_client : Bool → ℕ → List ℤ → Hub Num → Hub Num
  add_client session id tokens h =
      snapshot_locked id tokens (ensure_socket_locked session tokens (add_client_entry id tokens h))

  -- A change of the connection is told once to those who listen now.
  unfoldable pub notify_locked : Bool → Hub Num → Hub Num
  notify_locked true h = if h.connected then h else record h {
    connected = true;
    events =
        if is_empty h.conn_listeners
        then h.events
        else h.events ++ connection_event h.conn_listeners true ∷ [];
  }
  notify_locked false h =
      if h.connected
      then record h {
        connected = false;
        events =
            if is_empty h.conn_listeners
            then h.events
            else h.events ++ connection_event h.conn_listeners false ∷ [];
      }
      else h

  -- `Stop`, up to the callbacks.
  unfoldable pub stop : Hub Num → Hub Num
  stop h =
      let closed = record h {
        sock = none;
        calls = elim h.sock [ none ↦ h.calls | some id ↦ h.calls ++ close id ∷ [] ];
      } in
      record (notify_locked false closed) {
        subscribed = [];
        latest = [];
        latest_at = [];
        latest_ladder = [];
        latest_ladder_at = [];
      }

  -- The first call of a browser's detach function; a later one does nothing here.
  unfoldable pub detach : ℕ → Bool → Hub Num → Hub Num
  detach id legacy h =
      let left = record h {
        clients = delete ℕ_discrete id h.clients;
        halted = h.halted ++ id ∷ [];
      } in
      if legacy && is_empty left.clients && is_empty left.retainers then stop left else left

  -- The browser's writer takes the next frame.
  unfoldable pub write_frame : ℕ → Hub Num → Hub Num
  write_frame id h = elim (get ℕ_discrete id h.clients) [
    | none ↦ h
    | some c ↦ elim c.frames [
      | [] ↦ h
      | f ∷ fs ↦ record h {
        clients =
            put ℕ_discrete id (record c { frames = fs; written = c.written ++ f ∷ [] }) h.clients;
      }
    ]
  ]
