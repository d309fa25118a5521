-- ===== src/Brokers.antt =====
-- internal/brokers: the subscription table of a market-data lane.
pub mod Subscriptions
pub mod Feedhealth
pub mod Lane
pub mod Ids
