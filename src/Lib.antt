-- ===== src/Lib.antt =====
-- Verification of the backend's core: the subscriptions, quotes and paper trades of its strategies,
-- and the services that carry market data in and out of it.
--
-- How the parts interact: the features of the backend (browser, scanner, strategies, analytics)
-- lease instrument tokens from the subscription coordinator, which tells the broker's WebSocket
-- transport what to subscribe to. The broker's ticker decodes its binary packets into ticks, which go
-- to the hub that serves the browsers, to the quote store and to the Spike engine. The engine keeps
-- a quote for each wanted token, looks for the cheapest pair of options, samples its price into a
-- rolling window and into one-minute bars, and enters and closes one-lot paper spreads. Requests of
-- historical candles pass one gate for the whole process. The analytics queue their frames in a
-- buffer, whose flushes write to a key-value cache in the database, and a coordinator runs the steps
-- of a shutdown.
--
-- Which file models which code:
--   Base                       shared helpers: Boolean tests, lists, maps as association lists, int64
--                              as ℤ, float64 as a record of operations with the facts used (Float),
--                              and a concrete instance of it for runs (Milli).
--   Brokers/Subscriptions      internal/brokers/subscriptions.go: the Coordinator and each section
--                              that holds its mutex; the transport's calls are returned as a list.
--   Spike/Types, Rules, Quote  internal/spike/types.go, universe.go, and the tick of
--                              internal/market/market.go.
--   Spike/Window               internal/spike/window.go: the monotonic queues.
--   Spike/Engine               internal/spike/engine.go and actions.go: the state, and one function
--                              for each stretch of a method that holds the mutex; Machine interleaves
--                              the stretches as steps.
--   Spike/Universe             internal/spike/universe.go: the option chains at the nearest expiry.
--   Quotes, Quotes/Strikes     internal/quotes/quotes.go and strikes.go: the books that paper trades
--                              are priced from, and the strikes around the spot.
--   Boundedcache               internal/boundedcache/boundedcache.go.
--   Httpx/Ratelimit            internal/httpx/ratelimit.go: the limiter of requests.
--   Brokers/Feedhealth, Lane,  internal/brokers/feedhealth.go, lane.go and types.go.
--   Ids
--   Auth                       internal/auth/auth.go: the sessions and the passcode.
--   Kite/Gate                  internal/kite/historical_gate.go: the gate, the callers and the runs.
--   Kite/Ticker                internal/kite/ticker/parse.go: the decoder (Ticker), the layout of the
--                              messages (Layout) and the decoder on them (Words).
--   Hub                        internal/hub/hub.go: the browsers and the sockets (Hub), the caches and
--                              the listeners (Hub/Cache).
--   Kv                         internal/kv/kv.go: the statements on the two tables (Kv), the commands
--                              with the driver's answers (Kv/Visible), what they do to a key
--                              (Refinement, Commands), the keys of Redis by themselves (Reference),
--                              and commands that are sent again (Resending).
--   Analytics/Writebehind      internal/analytics/writebehind.go: the buffer and its flushes; Sending
--                              carries the commands of a flush out in the cache of Kv, and
--                              Final is the last flush at shutdown, with what other goroutines do.
--   Lifecycle                  internal/lifecycle/shutdown.go: the calls, the goroutine and the timer
--                              as moves of one state.
--   Tests in each part         concrete runs.
--
-- Bounds: numbers are unbounded; times are epoch milliseconds and not negative, and where the source
-- subtracts two times the model's subtraction stops at 0, which its tests do not tell from a negative
-- result. No definition needs fuel: every loop runs over a list, or as often as a message declares.
--
-- Not modelled: logging, JSON and HTTP, the database but for the statements of the key-value cache,
-- the brokers' clients and sockets but for Kite's packets and gate, the delivery of the hub's
-- callbacks outside its lock, snapshots for watchers,
-- the load of the day by the Spike engine's reconciler, and the other packages (the charges, the fair
-- values, the synthetic and the calendar spreads among them). The manifest of the development lists
-- them with the reason.
pub mod Analytics
pub mod Auth
pub mod Base
pub mod Boundedcache
pub mod Brokers
pub mod Httpx
pub mod Hub
pub mod Kite
pub mod Kv
pub mod Lifecycle
pub mod Quotes
pub mod Spike
