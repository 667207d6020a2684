-- ===== src/Shared/Models.antt =====
-- packages/shared/src/nexocrypto_shared/models.py. A UUID is a number that is only compared, and a
-- datetime is its count of microseconds since a fixed instant.

use nexocrypto.Prelude.{ℕ, Bool, String, List, Option}
use nexocrypto.Decimal.{Decimal}
use nexocrypto.Shared.Enums.{Mode, Side, MarginType, OrderType}

abbrev pub Uuid : Type 0
Uuid = ℕ

abbrev pub Datetime : Type 0
Datetime = ℕ

pub record FeeSchedule : Type 0 where
  pub exchange : String
  pub symbol : Option String
  pub vip_level : String
  pub maker_bps : Decimal
  pub taker_bps : Decimal
  pub effective_at : Datetime
  pub source : Option String

pub record Kline : Type 0 where
  pub open_time : Datetime
  pub open_price : Decimal
  pub high : Decimal
  pub low : Decimal
  pub close : Decimal
  pub volume : Decimal
  pub close_time : Datetime

pub record OrderBookLevel : Type 0 where
  pub price : Decimal
  pub size : Decimal

pub record OrderBookSnapshot : Type 0 where
  pub exchange : String
  pub pair : String
  pub taken_at : Datetime
  pub bids : List OrderBookLevel
  pub asks : List OrderBookLevel
  pub is_native : Bool

-- Less the two contexts and the indicators, dicts of any values that no strategy reads.
pub record MarketSnapshot : Type 0 where
  pub pair : String
  pub exchange : String
  pub taken_at : Datetime
  pub klines : List Kline
  pub order_book : Option OrderBookSnapshot
  pub mark_price : Option Decimal
  pub funding_rate : Option Decimal
  pub open_interest : Option Decimal
  pub spread_bps : Option Decimal

pub record Signal : Type 0 where
  pub id : Uuid
  pub pair : String
  pub side : Side
  pub strategy : String
  pub entry : Decimal
  pub stop_loss : Decimal
  pub take_profits : List Decimal
  pub leverage : Decimal
  pub margin_type : MarginType
  pub timeframe : String
  pub thesis_tags : List String
  pub source : String
  pub dedup_hash : String
  pub created_at : Datetime

pub record RiskProfile : Type 0 where
  pub name : String
  pub max_risk_per_trade_bps : Decimal
  pub max_daily_loss_bps : Decimal
  pub max_weekly_loss_bps : Decimal
  pub max_drawdown_bps : Decimal
  pub max_open_positions : ℕ
  pub max_leverage : Decimal
  pub max_exposure_per_asset_bps : Decimal
  pub max_total_exposure_bps : Decimal
  pub max_trades_per_hour : ℕ
  pub min_rr : Decimal
  pub min_adx : Decimal
  pub min_liquidity_usd : Decimal
  pub min_volume_usd : Decimal
  pub min_expected_profit_after_fees_bps : Decimal
  pub min_liquidation_distance_bps : Decimal
  pub stale_price_max_seconds : ℕ
  pub cooldown_after_loss_seconds : ℕ
  pub cooldown_after_volatility_spike_seconds : ℕ
  pub breakeven_trigger_bps : Decimal
  pub trailing_trigger_bps : Decimal
  pub partial_tp_trigger_bps : Decimal
  pub protected_profit_giveback : Decimal
  pub min_paper_trades_for_live : ℕ
  pub min_paper_profit_factor_for_live : Decimal
  pub max_paper_drawdown_for_live_bps : Decimal

pub record TradeDecision : Type 0 where
  pub signal_id : Uuid
  pub mode : Mode
  pub approved : Bool
  pub reason : String
  pub intended_order_type : Option OrderType
  pub intended_qty : Option Decimal
  pub intended_entry : Option Decimal
  pub intended_stop_loss : Option Decimal
  pub intended_take_profits : List Decimal
  pub intended_leverage : Option Decimal
  pub ev_net_bps : Option Decimal
  pub liquidation_price : Option Decimal
  pub liquidation_distance_bps : Option Decimal
  pub fees_round_trip_bps : Option Decimal
  pub idempotency_key : String
  pub decided_at : Datetime
  pub actor : String
