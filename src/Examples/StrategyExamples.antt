-- ===== src/Examples/StrategyExamples.antt =====
-- Examples for the indicators and the strategies.
use nexocrypto.Prelude.{List, negsuc, pos, arith, ℕ, ◌+◌, ◌≡◌, ok, some, none, [], ◌∷◌, refl}
use nexocrypto.Strategies.Sanity.Setups.{IsBracketed}
use nexocrypto.Strategies.Sanity.{IsFrom, evaluate_structure-IsBracketed}
use nexocrypto.Strategies.Structure.{structure_defaults, StructureParams, evaluate_structure}
use nexocrypto.Strategies.Indicators.AllAligned.{AreAligned, indicators-AreAligned}
use nexocrypto.Shared.{
  Formatting, Kline, MarketSnapshot, Signal, dedup_hash_of, isolated, long, number, text,
}
use nexocrypto.Decimal.{div, le, lt, max, mul, quotient, sub, of_ℕ}
use nexocrypto.Strategies.Total.{Evaluates, strategies_evaluate}
use nexocrypto.Strategies.Series.{at}
use nexocrypto.Strategies.MeanReversion.{
  mean_reversion_defaults, MeanReversionParams, evaluate_mean_reversion,
}
use nexocrypto.Strategies.Trend.{trend_defaults, TrendParams, evaluate_trend}
use nexocrypto.Examples.Data.{plain_hashing}

abbrev candle : ℕ → ℕ → ℕ → ℕ → Kline
candle t high low close = record {
  open_time = t;
  open_price = of_ℕ low;
  high = of_ℕ high;
  low = of_ℕ low;
  close = of_ℕ close;
  volume = of_ℕ 7;
  close_time = t + 1;
}

-- A jump over 102 to 104, and the return into it.
abbrev pub candles : List Kline
candles =
    candle 0 102 100 101 ∷ candle 1 106 101 105 ∷ candle 2 110 104 109 ∷ candle 3 109 103 104 ∷ []

abbrev snapshot : MarketSnapshot
snapshot = record {
  pair = "BTCUSDT";
  exchange = "bitunix";
  taken_at = 4;
  klines = candles;
  order_book = none;
  mark_price = some (of_ℕ 104);
  funding_rate = none;
  open_interest = none;
  spread_bps = none;
}

abbrev pub formatting : Formatting
formatting = record { decimal_text = λ d. "104"; isoformat = λ t. "t"; int_text = λ z. "0" }

abbrev few_trend_bars : TrendParams
few_trend_bars = record trend_defaults {
  fast_period = 2;
  slow_period = 3;
  adx_period = 1;
  atr_period = 2;
  min_bars = 3;
}

abbrev few_reversion_bars : MeanReversionParams
few_reversion_bars = record mean_reversion_defaults {
  adx_period = 1;
  rsi_period = 2;
  atr_period = 2;
  min_bars = 3;
}

indicators-AreAligned_example : AreAligned candles 1 2 1
indicators-AreAligned_example = indicators-AreAligned candles 1 2 1 refl (omega arith) refl

few_bars : StructureParams
few_bars = record structure_defaults { min_bars = 4 }

found : Signal
found = record {
  id = 5;
  pair = "BTCUSDT";
  side = long;
  strategy = "fvg_ob";
  entry = of_ℕ 104;
  stop_loss = record { coeff = pos 101898; exp = negsuc 2 };
  take_profits = of_ℕ 110 ∷ [];
  leverage = of_ℕ 8;
  margin_type = isolated;
  timeframe = "5m";
  thesis_tags = "bullish_fvg" ∷ "gap_filled" ∷ [];
  source = "scanner";
  dedup_hash =
      dedup_hash_of plain_hashing formatting
        (text "fvg_ob" ∷ text "BTCUSDT" ∷ text "long" ∷ number (of_ℕ 104) ∷ text "t" ∷ []);
  created_at = 4;
}

fires : evaluate_structure plain_hashing formatting few_bars 5 snapshot 4 ≡ ok (some found)
unfolding evaluate_structure few_bars found at lt div le mul quotient sub max
fires = refl

evaluate_structure-IsBracketed_example : IsFrom 5 snapshot 4 4 found × IsBracketed found
unfolding few_bars
evaluate_structure-IsBracketed_example =
    evaluate_structure-IsBracketed plain_hashing formatting few_bars 5 snapshot 4 found fires

strategies_evaluate_example :
    Evaluates 5 snapshot 4 3 (evaluate_trend plain_hashing formatting few_trend_bars 5 snapshot 4)
    × Evaluates 5 snapshot 4 3
        (evaluate_mean_reversion plain_hashing formatting few_reversion_bars 5 snapshot 4)
strategies_evaluate_example =
    strategies_evaluate plain_hashing formatting 5 snapshot 4 few_trend_bars few_reversion_bars
      (record { fast = refl; slow = refl; of_adx = refl; of_atr = refl; bars = refl })
      (record { of_adx = refl; of_rsi = refl; of_atr = refl; bars = refl })
