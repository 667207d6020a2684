-- ===== src/Backtest.antt =====
-- services/engine/src/nexocrypto_engine/backtest: simulated trading on candles.
pub mod Fills
pub mod Runner
pub mod Metrics
