-- ===== src/Strategies/Indicators/AllAligned.antt =====
-- All the indicators together: they return, with one value for each candle.
use nexocrypto.Prelude.{
  List, Result, [], arith, false, leb, length, length-replicate, none, ℕ, ◌==◌, ◌<◌, ◌∷◌, ◌≡◌, ok,
  refl, Bool-cases, inl, inr,
}
use nexocrypto.Strategies.Indicators.Alignment.{
  WarmsUp, atr-WarmsUp, ema-WarmsUp, short_of, true_range_lem, wilder-WarmsUp,
}
use nexocrypto.Decimal.{Decimal, add, mul, of_ℕ, quotient}
use nexocrypto.Strategies.Indicators.Macd.{macd}
use nexocrypto.Strategies.Indicators.Macd.WarmUp.{MacdWarmsUp, macd-WarmsUp}
use nexocrypto.Strategies.Series.{Series, nones}
use nexocrypto.Shared.{Kline}
use nexocrypto.Strategies.Indicators.Strength.{IsBounded, first_of, length-adx_out, rsi-IsBounded}
use nexocrypto.Strategies.Indicators.{
  adx, vwap, vwap_from, directional, plus_moves, minus_moves, dx_series, adx_out, ema, atr, rsi,
}

length-vwap_from : (pv v : Decimal) (ks : List Kline) → length (vwap_from pv v ks) ≡ length ks
unfolding vwap_from
length-vwap_from pv v [] = refl
length-vwap_from pv v (k ∷ ks) = omega (
  arith,
  length-vwap_from (add pv (mul (quotient (add (add k.high k.low) k.close) (of_ℕ 3)) k.volume))
      (add v k.volume) ks,
)

pub length-vwap : (klines : List Kline) → length (vwap klines) ≡ length klines
unfolding vwap
length-vwap klines = length-vwap_from (of_ℕ 0) (of_ℕ 0) klines

-- The call returns a series with one value for each candle.
abbrev pub Aligns : ℕ → Result Series → Type 0
Aligns len m = (out : Series) × (m ≡ ok out) × (length out ≡ len)

pub adx-Aligns :
    (klines : List Kline) (period : ℕ)
    → (period == 0) ≡ false
    → Aligns (length klines) (adx klines period)
unfolding adx
adx-Aligns klines period positive = elim (Bool-cases (leb (length klines) period)) [
  | inl few ↦ rw few (nones (length klines), refl, length-replicate (length klines) none)
  | inr enough ↦
      let (tr, e, same) = true_range_lem klines (ground arith) in
      let (ts, et, wt) = wilder-WarmsUp klines period positive tr in
      let (ps, ep, wp) = wilder-WarmsUp klines period positive (directional plus_moves klines) in
      let (ms, em, wm) = wilder-WarmsUp klines period positive (directional minus_moves klines) in
      rw (enough, e, et, ep, em)
        (
          adx_out (length klines) period (dx_series ts ps ms),
          refl,
          length-adx_out (length klines) period (dx_series ts ps ms),
        )
]

-- What the indicators give for some candles and a period, and the MACD for a slower one beside it.
pub record AreAligned (klines : List Kline) (period slow signal : ℕ) : Type 0 where
  pub of_ema : WarmsUp (length klines) (short_of (length klines) period) (ema klines period)
  pub of_macd : MacdWarmsUp (length klines) slow signal (macd klines period slow signal)
  pub of_atr : WarmsUp (length klines) (short_of (length klines) period) (atr klines period)
  pub of_rsi : IsBounded (length klines) (first_of (length klines) period) (rsi klines period)
  pub of_adx : Aligns (length klines) (adx klines period)
  pub of_vwap : length (vwap klines) ≡ length klines

-- For every period above 0 and all candles, however few, each indicator returns with one value for each
-- candle: EMA and ATR have none for the first `period - 1` candles and one for each other, RSI none for the
-- first `period` and then values of at most 100, which divides by 0 nowhere. The MACD of this period and
-- a greater one has its line from candle `slow` on, its signal line and its histogram from candle
-- `slow + signal - 1` on.
pub indicators-AreAligned :
    (klines : List Kline) (period slow signal : ℕ)
    → (period == 0) ≡ false
    → period < slow
    → (signal == 0) ≡ false
    → AreAligned klines period slow signal
indicators-AreAligned klines period slow signal positive slower some_signal = record {
  of_ema = ema-WarmsUp klines period positive;
  of_macd = macd-WarmsUp klines period slow signal positive slower some_signal;
  of_atr = atr-WarmsUp klines period positive;
  of_rsi = rsi-IsBounded klines period positive;
  of_adx = adx-Aligns klines period positive;
  of_vwap = length-vwap klines;
}
