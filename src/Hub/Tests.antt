-- ===== src/Hub/Tests.antt =====
-- Runs of the hub of internal/hub/hub.go, in thousandths.
use cal_spread_backend.Base.{
  ℕ, ◌*◌, ◌+◌, ◌≤◌, ◌≡◌, refl, true, Option, none, some, List, [], ◌∷◌, ◌++◌, length, leb, arith,
  ℕ_discrete, mem, if◌then◌else◌,
}
use cal_spread_backend.Base.Int.{ℤ, pos, ℤ-discrete}
use cal_spread_backend.Base.Maps.{get, put, delete}
use cal_spread_backend.Spike.Quote.{DepthLevel, Tick}
use cal_spread_backend.Hub.{
  data_frame, kite_error_frame, Client, Hub, connect, subscribe_more, close, new_hub, attach_client,
  add_client, snapshot_locked, snapshot_ticks, send_each, send_locked, ensure_socket_locked,
  fresh_tokens, add_tokens, detach, stop, notify_locked, write_frame,
}
use cal_spread_backend.Hub.Cache.{get_fresh_ladder, subscribe_tokens, ladder_of, carries_book}
use cal_spread_backend.Hub.Books.{
  broadcast_all, last_carrier_of, last_carrier, get_fresh_ladder-broadcast_all,
}
use cal_spread_backend.Hub.Clients.{given, Traffic, sends, takes, flow, frames_sent, flow-given}

abbrev Num : Type 0
Num = Option ℤ

abbrev rupees : ℕ → Num
rupees n = some (pos (n * 1000))

abbrev book_tick : ℕ → Option (List (DepthLevel Num)) → Tick Num
book_tick token bids = record {
  token = pos token;
  last_price = rupees 11;
  close_price = rupees 0;
  oi = rupees 0;
  bid = rupees 0;
  ask = rupees 0;
  bids = bids;
  asks = none;
  depth_updated = none;
  exchange_ts = none;
  average_price = none;
  price_updated = none;
  average_updated = none;
  namespace = none;
}

abbrev one_bid : List (DepthLevel Num)
one_bid = record { price = rupees 10; qty = rupees 5; orders = rupees 1 } ∷ []

abbrev batches : List (ℕ × List (Tick Num))
batches =
    (1000, book_tick 7 (some one_bid) ∷ book_tick 7 none ∷ []) ∷ (1500, book_tick 8 none ∷ []) ∷ []

-- The first tick of the first batch is the last that carries a book of token 7.
get_fresh_ladder-broadcast_all_example :
    get_fresh_ladder 3000 (pos 7) 5000 (broadcast_all batches (new_hub 0))
    ≡ elim (last_carrier_of (pos 7) batches) [
      | none ↦ get_fresh_ladder 3000 (pos 7) 5000 (new_hub 0)
      | some (now, t) ↦ if leb 3000 (now + 5000) then ladder_of t else none
    ]
get_fresh_ladder-broadcast_all_example =
    get_fresh_ladder-broadcast_all 3000 (pos 7) 5000 batches (new_hub 0)

carrier : last_carrier_of (pos 7) batches ≡ some (1000, book_tick 7 (some one_bid))
unfolding last_carrier_of last_carrier carries_book ℤ-discrete ℕ_discrete
carrier = refl

-- A second socket user adds its tokens to the live socket; the last browser to go closes it.
sockets :
    (detach 1 true (
      add_client true 1
        (pos 7 ∷ pos 8 ∷ [])
        (subscribe_tokens true (pos 7 ∷ []) (new_hub {Num = Num} 0)))).calls
    ≡ connect 1 (pos 7 ∷ []) ∷ subscribe_more 1 (pos 8 ∷ []) ∷ close 1 ∷ []
unfolding detach add_client subscribe_tokens new_hub ensure_socket_locked fresh_tokens add_tokens
    snapshot_locked snapshot_ticks stop notify_locked get put delete mem ℤ-discrete ℕ_discrete
sockets = refl

abbrev fresh_client : Client Num
fresh_client = record { tokens = pos 7 ∷ []; frames = []; written = [] }

abbrev two_clients : Hub Num
two_clients = attach_client 2 [] (attach_client 1 (pos 7 ∷ []) (new_hub 2))

abbrev traffic : List (Traffic Num)
traffic =
    sends (data_frame [])
    ∷ takes 1
    ∷ sends (kite_error_frame "no session")
    ∷ sends (data_frame [])
    ∷ []

abbrev fed_client : Client Num
fed_client = record {
  tokens = pos 7 ∷ [];
  frames = kite_error_frame "no session" ∷ data_frame [] ∷ [];
  written = data_frame [] ∷ [];
}

flow-fed_client : get ℕ_discrete 1 (flow traffic two_clients).clients ≡ some fed_client
unfolding flow attach_client new_hub snapshot_locked snapshot_ticks send_each send_locked
    write_frame get put delete ℕ_discrete
flow-fed_client = refl

-- The other browser, whose writer takes nothing, has been dropped.
dropped_client : get ℕ_discrete 2 (flow traffic two_clients).clients ≡ none
unfolding flow attach_client new_hub snapshot_locked snapshot_ticks send_each send_locked
    write_frame get put delete ℕ_discrete
dropped_client = refl

flow-given_example :
    (given fed_client ≡ given fresh_client ++ frames_sent traffic) × (length fed_client.frames ≤ 2)
unfolding attach_client new_hub snapshot_locked snapshot_ticks get put ℕ_discrete
flow-given_example =
    flow-given traffic 1 fresh_client fed_client two_clients (refl, (refl, tt)) refl (omega arith)
      flow-fed_client
