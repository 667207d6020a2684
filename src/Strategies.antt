-- ===== src/Strategies.antt =====
-- services/engine/src/nexocrypto_engine/strategy/base.py: the contract of a strategy, with its
-- parameters bound. A signal takes its id from the caller's supply; a strategy has no other state.
pub mod Series
pub mod Indicators
pub mod Trend
pub mod MeanReversion
pub mod Structure
pub mod Sanity
pub mod Total
use nexocrypto.Prelude.{String, Result, Option}
use nexocrypto.Shared.{Uuid, Datetime, MarketSnapshot, Signal}

pub record Strategy : Type 0 where
  pub key : String
  pub evaluate : Uuid → MarketSnapshot → Datetime → Result (Option Signal)
