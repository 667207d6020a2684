-- ===== src/Strategies/Trend.antt =====
-- services/engine/src/nexocrypto_engine/strategy/ema_adx_trend.py: a close that crosses the fast average in the
-- direction of the trend.
use Prim.Native.String.{◌++◌ as text_append}
use nexocrypto.Prelude.{
  map_option, List, if◌then◌else◌, length, ltb, ◌&&◌, ◌>>=◌, none, some, [], ◌∷◌, ℕ, Option, String,
  Result, ok, ◌-◌, pos, negsuc,
}
use nexocrypto.Shared.{
  Kline, Datetime, Formatting, Hashing, MarketSnapshot, Side, Signal, Uuid, dedup_hash_of, isolated,
  long, short, side_value, text, number,
}
use nexocrypto.Decimal.{Decimal, add, le, lt, mul, of_ℕ, sub, to_ℤ}
use nexocrypto.Strategies.Series.{at}
use nexocrypto.Strategies.Indicators.{adx, atr, ema}
use nexocrypto.Strategies.{Strategy}

-- `EmaAdxTrendParams`
pub record TrendParams : Type 0 where
  pub fast_period : ℕ
  pub slow_period : ℕ
  pub adx_period : ℕ
  pub adx_threshold : Decimal
  pub atr_period : ℕ
  pub atr_stop_mult : Decimal
  pub atr_tp_mult : Decimal
  pub leverage : Decimal
  pub min_bars : ℕ
  pub timeframe : String

abbrev pub trend_defaults : TrendParams
trend_defaults = record {
  fast_period = 35;
  slow_period = 50;
  adx_period = 14;
  adx_threshold = of_ℕ 20;
  atr_period = 14;
  atr_stop_mult = record { coeff = pos 20; exp = negsuc 0 };
  atr_tp_mult = record { coeff = pos 30; exp = negsuc 0 };
  leverage = of_ℕ 10;
  min_bars = 200;
  timeframe = "5m";
}

-- What the rule reads of the series at the last candle.
pub record TrendReading : Type 0 where
  pub f_now : Decimal
  pub f_prev : Decimal
  pub s_now : Decimal
  pub a_now : Decimal
  pub atr_now : Decimal

-- `None in (...)`
unfoldable pub trend_reading_of :
    Option Decimal
    → Option Decimal
    → Option Decimal
    → Option Decimal
    → Option Decimal
    → Option TrendReading
trend_reading_of (some f) (some p) (some s) (some a) (some t) =
    some (record { f_now = f; f_prev = p; s_now = s; a_now = a; atr_now = t })
trend_reading_of _ _ _ _ _ = none

-- The side of the rule, if it fires.
unfoldable pub trend_side : TrendParams → TrendReading → Decimal → Decimal → Option Side
trend_side params r close_prev close_now =
    let crossed_up = le close_prev r.f_prev && lt r.f_now close_now in
    let crossed_dn = le r.f_prev close_prev && lt close_now r.f_now in
    if lt r.a_now params.adx_threshold
    then none
    else if lt r.s_now r.f_now && crossed_up
    then some long
    else if lt r.f_now r.s_now && crossed_dn
    then some short
    else none

abbrev cross_tag : Side → String
cross_tag long = "cross_up"
cross_tag short = "cross_down"

-- The indicators at the index `i`, read.
unfoldable pub trend_reading : TrendParams → List Kline → ℕ → Result (Option TrendReading)
unfolding trend_reading_of
trend_reading params klines i = do
  ema_fast ← ema klines params.fast_period
  ema_slow ← ema klines params.slow_period
  adx_series ← adx klines params.adx_period
  atr_series ← atr klines params.atr_period
  f_now ← at ema_fast i
  f_prev ← at ema_fast (i - 1)
  s_now ← at ema_slow i
  a_now ← at adx_series i
  atr_now ← at atr_series i
  ok (trend_reading_of f_now f_prev s_now a_now atr_now)

module _ (hashing : Hashing) (formatting : Formatting) where
  -- `_build`
  unfoldable pub trend_signal :
      TrendParams → Uuid → MarketSnapshot → Datetime → Side → Decimal → TrendReading → Signal
  trend_signal params id snapshot now side entry r =
      let stop_dist = mul params.atr_stop_mult r.atr_now in
      let tp_dist = mul params.atr_tp_mult r.atr_now in
      record {
        id = id;
        pair = snapshot.pair;
        side = side;
        strategy = "ema_adx_trend";
        entry = entry;
        stop_loss = elim side [ long ↦ sub entry stop_dist | short ↦ add entry stop_dist ];
        take_profits = elim side [ long ↦ add entry tp_dist | short ↦ sub entry tp_dist ] ∷ [];
        leverage = params.leverage;
        margin_type = isolated;
        timeframe = params.timeframe;
        thesis_tags =
            "ema_aligned"
            ∷ text_append "adx_" (formatting.int_text (to_ℤ r.a_now))
            ∷ cross_tag side
            ∷ [];
        source = "scanner";
        dedup_hash = dedup_hash_of hashing formatting (
            text "ema_adx_trend"
            ∷ text snapshot.pair
            ∷ text (side_value side)
            ∷ number entry
            ∷ text (formatting.isoformat now)
            ∷ []);
        created_at = now;
      }

  -- The rule, given the reading and the two last closes.
  unfoldable pub trend_rule :
      TrendParams
      → Uuid
      → MarketSnapshot
      → Datetime
      → Decimal
      → Decimal
      → Option TrendReading
      → Option Signal
  trend_rule params id snapshot now close_prev close_now none = none
  trend_rule params id snapshot now close_prev close_now (some r) =
      map_option (λ side. trend_signal params id snapshot now side close_now r)
        (trend_side params r close_prev close_now)

  unfoldable pub evaluate_trend :
      TrendParams → Uuid → MarketSnapshot → Datetime → Result (Option Signal)
  unfolding trend_rule
  evaluate_trend params id snapshot now =
      let klines = snapshot.klines in
      let i = length klines - 1 in
      if ltb (length klines) params.min_bars then ok none else (do
        reading ← trend_reading params klines i
        last ← at klines i
        prev ← at klines (i - 1)
        ok (trend_rule params id snapshot now prev.close last.close reading))

  abbrev pub trend_strategy : TrendParams → Strategy
  trend_strategy params = record { key = "ema_adx_trend"; evaluate = evaluate_trend params }
