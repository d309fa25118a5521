-- ===== src/Kite.antt =====
-- internal/kite: the broker's client and its ticker.
pub mod Gate
pub mod Ticker
