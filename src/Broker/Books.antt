-- ===== src/Broker/Books.antt =====
-- The tables of the broker agree with each other, and with the metrics, whatever happens.
pub mod Tracked
pub mod Gauge
pub mod Counted
