-- ===== src/Risk/Types.antt =====
-- services/engine/src/nexocrypto_engine/risk/types.py
use nexocrypto.Prelude.{ℕ, Bool, true, false, String, Option, List}
use nexocrypto.Decimal.{Decimal}
use nexocrypto.Shared.{Side, MarginType, Datetime}

pub data RejectReason : Type 0 where
  reason_ok : RejectReason
  account_protection_lock paper_gate_unmet stale_price connector_failure : RejectReason
  daily_loss_limit weekly_loss_limit drawdown_limit : RejectReason
  max_open_positions max_trades_per_hour max_exposure_per_asset max_total_exposure : RejectReason
  cooldown_after_loss cooldown_after_volatility : RejectReason
  size_below_min size_risk_unreachable max_leverage_exceeded liquidation_too_close : RejectReason
  ev_negative_after_costs ev_stats_unknown min_rr_not_met min_liquidity_not_met : RejectReason
  duplicate_signal invalid_signal : RejectReason

-- `reason.value`
abbrev pub reason_value : RejectReason → String
reason_value reason_ok = "ok"
reason_value account_protection_lock = "account_protection_lock"
reason_value paper_gate_unmet = "paper_gate_unmet"
reason_value stale_price = "stale_price"
reason_value connector_failure = "connector_failure"
reason_value daily_loss_limit = "daily_loss_limit"
reason_value weekly_loss_limit = "weekly_loss_limit"
reason_value drawdown_limit = "drawdown_limit"
reason_value max_open_positions = "max_open_positions"
reason_value max_trades_per_hour = "max_trades_per_hour"
reason_value max_exposure_per_asset = "max_exposure_per_asset"
reason_value max_total_exposure = "max_total_exposure"
reason_value cooldown_after_loss = "cooldown_after_loss"
reason_value cooldown_after_volatility = "cooldown_after_volatility"
reason_value size_below_min = "size_below_min"
reason_value size_risk_unreachable = "size_risk_unreachable"
reason_value max_leverage_exceeded = "max_leverage_exceeded"
reason_value liquidation_too_close = "liquidation_too_close"
reason_value ev_negative_after_costs = "ev_negative_after_costs"
reason_value ev_stats_unknown = "ev_stats_unknown"
reason_value min_rr_not_met = "min_rr_not_met"
reason_value min_liquidity_not_met = "min_liquidity_not_met"
reason_value duplicate_signal = "duplicate_signal"
reason_value invalid_signal = "invalid_signal"

-- `reason == RejectReason.OK`
abbrev pub is_ok : RejectReason → Bool
is_ok reason_ok = true
is_ok _ = false

pub record StrategyStats : Type 0 where
  pub strategy : String
  pub sample_size : ℕ
  pub win_rate : Decimal
  pub avg_win_bps : Decimal
  pub avg_loss_bps : Decimal
  pub min_sample_for_live : ℕ

pub record AccountState : Type 0 where
  pub equity : Decimal
  pub balance : Decimal
  pub daily_realized_pnl : Decimal
  pub weekly_realized_pnl : Decimal
  pub peak_equity : Decimal
  pub open_positions_count : ℕ
  pub exposure_per_asset_bps : List (String × Decimal)
  pub total_exposure_bps : Decimal
  pub trades_last_hour : ℕ
  pub last_loss_at : Option Datetime
  pub last_volatility_spike_at : Option Datetime
  pub account_protection_lock : Bool
  pub paper_gate_unlocked : Bool
  pub last_tick_at : Option Datetime

pub record PositionState : Type 0 where
  pub pair : String
  pub side : Side
  pub qty : Decimal
  pub entry_price : Decimal
  pub leverage : Decimal
  pub margin_type : MarginType
  pub fees_paid : Decimal
  pub funding_paid : Decimal
  pub continue_flag : Bool
  pub peak_gain_net : Decimal
  pub protected_floor_net : Option Decimal
  pub opened_at : Option Datetime
