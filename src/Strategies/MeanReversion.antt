-- ===== src/Strategies/MeanReversion.antt =====
-- services/engine/src/nexocrypto_engine/strategy/vwap_rsi_meanrev.py: the return to the VWAP in a market
-- without a trend.
use Prim.Native.String.{◌++◌ as text_append}
use nexocrypto.Prelude.{
  map_option, List, if◌then◌else◌, length, ltb, ◌&&◌, ◌>>=◌, none, some, [], ◌∷◌, ℕ, Option, String,
  Result, ok, ◌-◌, pos, negsuc,
}
use nexocrypto.Shared.{
  Kline, Datetime, Formatting, Hashing, MarketSnapshot, Side, Signal, Uuid, dedup_hash_of, isolated,
  long, short, side_value, text, number,
}
use nexocrypto.Decimal.{Decimal, add, le, lt, mul, of_ℕ, sub, to_ℤ}
use nexocrypto.Strategies.Indicators.{adx, atr, rsi, vwap}
use nexocrypto.Strategies.Series.{at}
use nexocrypto.Strategies.{Strategy}

-- `VwapRsiMeanRevParams`
pub record MeanReversionParams : Type 0 where
  pub adx_period : ℕ
  pub adx_ceiling : Decimal
  pub rsi_period : ℕ
  pub rsi_oversold : Decimal
  pub rsi_overbought : Decimal
  pub vwap_deviation_pct : Decimal
  pub atr_period : ℕ
  pub atr_stop_mult : Decimal
  pub leverage : Decimal
  pub min_bars : ℕ
  pub timeframe : String

abbrev pub mean_reversion_defaults : MeanReversionParams
mean_reversion_defaults = record {
  adx_period = 14;
  adx_ceiling = of_ℕ 20;
  rsi_period = 14;
  rsi_oversold = of_ℕ 30;
  rsi_overbought = of_ℕ 70;
  vwap_deviation_pct = record { coeff = pos 5; exp = negsuc 2 };
  atr_period = 14;
  atr_stop_mult = record { coeff = pos 15; exp = negsuc 0 };
  leverage = of_ℕ 5;
  min_bars = 200;
  timeframe = "5m";
}

pub record VwapReading : Type 0 where
  pub adx_now : Decimal
  pub rsi_now : Decimal
  pub vwap_now : Decimal
  pub atr_now : Decimal

-- `None in (...)`
unfoldable pub vwap_reading_of :
    Option Decimal → Option Decimal → Option Decimal → Option Decimal → Option VwapReading
vwap_reading_of (some a) (some r) (some v) (some t) =
    some (record { adx_now = a; rsi_now = r; vwap_now = v; atr_now = t })
vwap_reading_of _ _ _ _ = none

unfoldable pub reversion_side : MeanReversionParams → VwapReading → Decimal → Option Side
reversion_side params r close =
    let upper_band = mul r.vwap_now (add (of_ℕ 1) params.vwap_deviation_pct) in
    let lower_band = mul r.vwap_now (sub (of_ℕ 1) params.vwap_deviation_pct) in
    if le params.adx_ceiling r.adx_now
    then none
    else if lt close lower_band && lt r.rsi_now params.rsi_oversold
    then some long
    else if lt upper_band close && lt params.rsi_overbought r.rsi_now
    then some short
    else none

abbrev vwap_tag : Side → String
vwap_tag long = "below_vwap"
vwap_tag short = "above_vwap"

-- The indicators at the index `i`, read.
unfoldable pub vwap_reading : MeanReversionParams → List Kline → ℕ → Result (Option VwapReading)
unfolding vwap_reading_of
vwap_reading params klines i = do
  adx_series ← adx klines params.adx_period
  a ← at adx_series i
  rsi_series ← rsi klines params.rsi_period
  r ← at rsi_series i
  v ← at (vwap klines) i
  atr_series ← atr klines params.atr_period
  atr_now ← at atr_series i
  ok (vwap_reading_of a r v atr_now)

module _ (hashing : Hashing) (formatting : Formatting) where
  abbrev int_text : Decimal → String
  int_text d = formatting.int_text (to_ℤ d)

  -- `_build`, with the stop and the target of each side.
  unfoldable pub reversion_signal :
      MeanReversionParams → Uuid → MarketSnapshot → Datetime → Side → Decimal → VwapReading → Signal
  reversion_signal params id snapshot now side close r =
      let stop_dist = mul params.atr_stop_mult r.atr_now in
      record {
        id = id;
        pair = snapshot.pair;
        side = side;
        strategy = "vwap_rsi_meanrev";
        entry = close;
        stop_loss = elim side [ long ↦ sub close stop_dist | short ↦ add close stop_dist ];
        take_profits = r.vwap_now ∷ [];
        leverage = params.leverage;
        margin_type = isolated;
        timeframe = params.timeframe;
        thesis_tags =
            "mean_reversion"
            ∷ text_append "adx_" (text_append (int_text r.adx_now) "_low_regime")
            ∷ text_append "rsi_" (int_text r.rsi_now)
            ∷ vwap_tag side
            ∷ [];
        source = "scanner";
        dedup_hash = dedup_hash_of hashing formatting (
            text "vwap_rsi_meanrev"
            ∷ text snapshot.pair
            ∷ text (side_value side)
            ∷ number close
            ∷ text (formatting.isoformat now)
            ∷ []);
        created_at = now;
      }

  unfoldable pub reversion_rule :
      MeanReversionParams
      → Uuid
      → MarketSnapshot
      → Datetime
      → Decimal
      → Option VwapReading
      → Option Signal
  reversion_rule params id snapshot now close none = none
  reversion_rule params id snapshot now close (some r) =
      map_option (λ side. reversion_signal params id snapshot now side close r)
        (reversion_side params r close)

  unfoldable pub evaluate_mean_reversion :
      MeanReversionParams → Uuid → MarketSnapshot → Datetime → Result (Option Signal)
  unfolding reversion_rule
  evaluate_mean_reversion params id snapshot now =
      let klines = snapshot.klines in
      let i = length klines - 1 in
      if ltb (length klines) params.min_bars then ok none else (do
        reading ← vwap_reading params klines i
        last ← at klines i
        ok (reversion_rule params id snapshot now last.close reading))

  abbrev pub mean_reversion_strategy : MeanReversionParams → Strategy
  mean_reversion_strategy params = record {
    key = "vwap_rsi_meanrev";
    evaluate = evaluate_mean_reversion params;
  }
