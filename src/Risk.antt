-- ===== src/Risk.antt =====
-- services/engine/src/nexocrypto_engine/risk: the gates on a new entry and the engine that runs them.
pub mod Types
pub mod Guards
pub mod Sizing
pub mod Ev
pub mod Liquidation
pub mod Protected
pub mod Idempotency
pub mod Engine
