-- ===== src/Examples/Data.antt =====
-- The inputs of the examples: a long entry of 2 at 100 with its stop at 98, on an account of 10000.
use nexocrypto.Risk.Types.{AccountState, StrategyStats}
use nexocrypto.Decimal.{of_ℕ}
use nexocrypto.Shared.{FeeSchedule, Hashing, RiskProfile, Signal, isolated, long, semi_auto}
use nexocrypto.Risk.Ev.{EvInputs}
use nexocrypto.Risk.Engine.{EntryRequest}
use nexocrypto.Prelude.{Result, [], false, negsuc, none, ok, pos, raised, some, true, ◌∷◌}

abbrev pub fees : FeeSchedule
fees = record {
  exchange = "bitunix";
  symbol = none;
  vip_level = "regular";
  maker_bps = of_ℕ 2;
  taker_bps = of_ℕ 6;
  effective_at = 0;
  source = none;
}

abbrev pub signal : Signal
signal = record {
  id = 7;
  pair = "BTCUSDT";
  side = long;
  strategy = "ema_adx_trend";
  entry = of_ℕ 100;
  stop_loss = of_ℕ 98;
  take_profits = of_ℕ 106 ∷ [];
  leverage = of_ℕ 5;
  margin_type = isolated;
  timeframe = "5m";
  thesis_tags = [];
  source = "scanner";
  dedup_hash = "k1";
  created_at = 0;
}

abbrev pub profile : RiskProfile
profile = record {
  name = "default";
  max_risk_per_trade_bps = of_ℕ 50;
  max_daily_loss_bps = of_ℕ 300;
  max_weekly_loss_bps = of_ℕ 600;
  max_drawdown_bps = of_ℕ 1500;
  max_open_positions = 3;
  max_leverage = of_ℕ 10;
  max_exposure_per_asset_bps = of_ℕ 3000;
  max_total_exposure_bps = of_ℕ 6000;
  max_trades_per_hour = 6;
  min_rr = of_ℕ 2;
  min_adx = of_ℕ 20;
  min_liquidity_usd = of_ℕ 0;
  min_volume_usd = of_ℕ 0;
  min_expected_profit_after_fees_bps = of_ℕ 5;
  min_liquidation_distance_bps = of_ℕ 500;
  stale_price_max_seconds = 10;
  cooldown_after_loss_seconds = 60;
  cooldown_after_volatility_spike_seconds = 60;
  breakeven_trigger_bps = of_ℕ 50;
  trailing_trigger_bps = of_ℕ 80;
  partial_tp_trigger_bps = of_ℕ 100;
  protected_profit_giveback = record { coeff = pos 30; exp = negsuc 1 };
  min_paper_trades_for_live = 50;
  min_paper_profit_factor_for_live = record { coeff = pos 12; exp = negsuc 0 };
  max_paper_drawdown_for_live_bps = of_ℕ 1500;
}

-- Down 1 percent from its peak, with a loss of 40 today and a last loss two minutes ago.
abbrev pub account : AccountState
account = record {
  equity = of_ℕ 9900;
  balance = of_ℕ 9900;
  daily_realized_pnl = record { coeff = negsuc 39; exp = pos 0 };
  weekly_realized_pnl = of_ℕ 15;
  peak_equity = of_ℕ 10000;
  open_positions_count = 1;
  exposure_per_asset_bps = [];
  total_exposure_bps = of_ℕ 1000;
  trades_last_hour = 2;
  last_loss_at = some 80000000;
  last_volatility_spike_at = none;
  account_protection_lock = false;
  paper_gate_unlocked = true;
  last_tick_at = some 199000000;
}

abbrev pub ev_inputs : EvInputs
ev_inputs = record {
  fee_schedule = fees;
  use_taker_both_sides = true;
  expected_spread_bps = of_ℕ 1;
  expected_slippage_bps = of_ℕ 1;
  expected_hold_hours = of_ℕ 9;
  funding_rate = record { coeff = pos 1; exp = negsuc 3 };
  funding_interval_hours = pos 8;
}

abbrev pub stats : StrategyStats
stats = record {
  strategy = "ema_adx_trend";
  sample_size = 120;
  win_rate = record { coeff = pos 55; exp = negsuc 1 };
  avg_win_bps = of_ℕ 120;
  avg_loss_bps = of_ℕ 60;
  min_sample_for_live = 50;
}

abbrev pub request : EntryRequest
request = record {
  signal = signal;
  account = account;
  risk_profile = profile;
  ev_inputs = ev_inputs;
  strategy_stats = some stats;
  mode = semi_auto;
  now = 200000000;
  clock = 5000000;
}

-- The same signal again, ten seconds later.
abbrev pub request_again : EntryRequest
request_again = record request { now = 210000000; clock = 15000000 }

abbrev pub plain_hashing : Hashing
plain_hashing = record { sha256_hexdigest = λ s. s; strip = λ s. s; lower = λ s. s }

-- What a call returned, or the given value.
abbrev pub value_or {ℓ} : {A : Type ℓ} → A → Result A → A
value_or a (ok b) = b
value_or a (raised e) = a
