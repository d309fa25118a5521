-- ===== src/Analytics.antt =====
-- internal/analytics: the recorders of the option chain.
pub mod Writebehind
