-- ===== src/Worker/Scanner/Defaults.antt =====
-- scanner.py: the account, the risk profile, the costs and the strategies that a scan takes where it is given
-- none.
use nexocrypto.Strategies.Structure.{structure_defaults, structure_strategy}
use nexocrypto.Risk.Types.{AccountState}
use nexocrypto.Shared.{Datetime, Formatting, Hashing, RiskProfile}
use nexocrypto.Decimal.{Decimal, of_ℕ}
use nexocrypto.Strategies.MeanReversion.{mean_reversion_defaults, mean_reversion_strategy}
use nexocrypto.Strategies.{Strategy}
use nexocrypto.Strategies.Trend.{trend_defaults, trend_strategy}
use nexocrypto.Risk.Ev.{EvInputs}
use nexocrypto.Prelude.{List, none, some, [], ◌∷◌, pos, negsuc, true, false}

abbrev pub default_strategies : Hashing → Formatting → List Strategy
default_strategies hashing formatting =
    trend_strategy hashing formatting (record trend_defaults { adx_threshold = of_ℕ 18 })
    ∷ mean_reversion_strategy hashing formatting
        (record mean_reversion_defaults { adx_ceiling = of_ℕ 25 })
    ∷ structure_strategy hashing formatting
        (record structure_defaults { min_gap_bps = of_ℕ 8; min_impulse_bps = of_ℕ 25 })
    ∷ []

abbrev pub default_account : Datetime → AccountState
default_account now = record {
  equity = of_ℕ 10000;
  balance = of_ℕ 10000;
  daily_realized_pnl = of_ℕ 0;
  weekly_realized_pnl = of_ℕ 0;
  peak_equity = of_ℕ 10000;
  open_positions_count = 0;
  exposure_per_asset_bps = [];
  total_exposure_bps = of_ℕ 0;
  trades_last_hour = 0;
  last_loss_at = none;
  last_volatility_spike_at = none;
  account_protection_lock = false;
  paper_gate_unlocked = true;
  last_tick_at = some now;
}

abbrev pub default_risk_profile : RiskProfile
default_risk_profile = record {
  name = "scanner_default";
  max_risk_per_trade_bps = of_ℕ 50;
  max_daily_loss_bps = of_ℕ 300;
  max_weekly_loss_bps = of_ℕ 800;
  max_drawdown_bps = of_ℕ 1500;
  max_open_positions = 3;
  max_leverage = of_ℕ 20;
  max_exposure_per_asset_bps = of_ℕ 3000;
  max_total_exposure_bps = of_ℕ 8000;
  max_trades_per_hour = 6;
  min_rr = record { coeff = pos 14; exp = negsuc 0 };
  min_adx = of_ℕ 18;
  min_liquidity_usd = of_ℕ 0;
  min_volume_usd = of_ℕ 0;
  min_expected_profit_after_fees_bps = of_ℕ 5;
  min_liquidation_distance_bps = of_ℕ 200;
  stale_price_max_seconds = 120;
  cooldown_after_loss_seconds = 900;
  cooldown_after_volatility_spike_seconds = 300;
  breakeven_trigger_bps = of_ℕ 30;
  trailing_trigger_bps = of_ℕ 60;
  partial_tp_trigger_bps = of_ℕ 40;
  protected_profit_giveback = record { coeff = pos 30; exp = negsuc 1 };
  min_paper_trades_for_live = 50;
  min_paper_profit_factor_for_live = record { coeff = pos 12; exp = negsuc 0 };
  max_paper_drawdown_for_live_bps = of_ℕ 1500;
}

abbrev pub default_ev_inputs : Decimal → Datetime → EvInputs
default_ev_inputs funding_rate now = record {
  fee_schedule = record {
    exchange = "bitunix";
    symbol = none;
    vip_level = "VIP0";
    maker_bps = of_ℕ 2;
    taker_bps = of_ℕ 6;
    effective_at = now;
    source = some "scanner";
  };
  use_taker_both_sides = true;
  expected_spread_bps = of_ℕ 1;
  expected_slippage_bps = of_ℕ 1;
  expected_hold_hours = record { coeff = pos 5; exp = negsuc 0 };
  funding_rate = funding_rate;
  funding_interval_hours = pos 8;
}
