-- ===== src/Strategies/Total.antt =====
-- The strategies on the indicators return: no index is out of range, since every series is aligned.
use nexocrypto.Prelude.{
  Bool-cases, Gives, Result, Returns, inl, inr, ltb, List, Option, [], arith, false, length, ok,
  refl, suc, zero, ℕ, ◌-◌, ◌<◌, ◌==◌, ◌∷◌, ◌≡◌,
}
use nexocrypto.Shared.{Datetime, Formatting, Hashing, MarketSnapshot, Signal, Uuid, Kline}
use nexocrypto.Strategies.Indicators.Alignment.{atr-WarmsUp, ema-WarmsUp, length-IsWarmedUp}
use nexocrypto.Strategies.Trend.{
  evaluate_trend, trend_reading_of, TrendParams, TrendReading, trend_reading,
}
use nexocrypto.Strategies.Indicators.AllAligned.{length-vwap, adx-Aligns}
use nexocrypto.Strategies.Sanity.{IfFired, IsFrom, reversion-Gives, trend-Gives}
use nexocrypto.Strategies.MeanReversion.{
  MeanReversionParams, VwapReading, evaluate_mean_reversion, vwap_reading, vwap_reading_of,
}
use nexocrypto.Strategies.Indicators.Strength.{first_of, rsi-IsBounded}
use nexocrypto.Strategies.Indicators.{vwap}
use nexocrypto.Strategies.Series.{after_warm_up, at}

at_in {ℓ} : {A : Type ℓ} (xs : List A) (i : ℕ) → i < length xs → (x : A) × (at xs i ≡ ok x)
unfolding at
at_in [] i h = absurd (omega arith)
at_in (x ∷ xs) zero h = (x, refl)
at_in (x ∷ xs) (suc i) h = at_in xs i (omega arith)

-- The value of an aligned series at an index of a candle.
read {ℓ} :
    {A : Type ℓ} (len i : ℕ) (xs : List A) → length xs ≡ len → i < len → (x : A) × (at xs i ≡ ok x)
read len i xs same h = at_in xs i (omega (arith, same))

module _ (klines : List Kline) (i : ℕ) (inside : i < length klines) where
  trend_reading_total :
      (params : TrendParams)
      → (params.fast_period == 0) ≡ false
      → (params.slow_period == 0) ≡ false
      → (params.adx_period == 0) ≡ false
      → (params.atr_period == 0) ≡ false
      → (r : Option TrendReading) × (trend_reading params klines i ≡ ok r)
  unfolding trend_reading
  trend_reading_total params fast slow adx_ok atr_ok =
      let len = length klines in
      let (f, ef, wf) = ema-WarmsUp klines params.fast_period fast in
      let (s, es, ws) = ema-WarmsUp klines params.slow_period slow in
      let (a, ea, wa) = adx-Aligns klines params.adx_period adx_ok in
      let (t, et, wt) = atr-WarmsUp klines params.atr_period atr_ok in
      let (f1, e1) = read len i f (length-IsWarmedUp len _ f wf) inside in
      let (f2, e2) = read len (i - 1) f (length-IsWarmedUp len _ f wf) (omega (arith, inside)) in
      let (s1, e3) = read len i s (length-IsWarmedUp len _ s ws) inside in
      let (a1, e4) = read len i a wa inside in
      let (t1, e5) = read len i t (length-IsWarmedUp len _ t wt) inside in
      (trend_reading_of f1 f2 s1 a1 t1, rw (ef, es, ea, et, e1, e2, e3, e4, e5) refl)

  vwap_reading_total :
      (params : MeanReversionParams)
      → (params.adx_period == 0) ≡ false
      → (params.rsi_period == 0) ≡ false
      → (params.atr_period == 0) ≡ false
      → (r : Option VwapReading) × (vwap_reading params klines i ≡ ok r)
  unfolding vwap_reading
  vwap_reading_total params adx_ok rsi_ok atr_ok =
      let len = length klines in
      let (a, ea, wa) = adx-Aligns klines params.adx_period adx_ok in
      let (vs, er, same, bounds) = rsi-IsBounded klines params.rsi_period rsi_ok in
      let r = after_warm_up (first_of len params.rsi_period) vs in
      let wr = length-IsWarmedUp len _ r (record { values = vs; shape = refl; all = same }) in
      let (t, et, wt) = atr-WarmsUp klines params.atr_period atr_ok in
      let wv = length-vwap klines in
      let (a1, e1) = read len i a wa inside in
      let (r1, e2) = read len i r wr inside in
      let (v1, e3) = read len i (vwap klines) wv inside in
      let (t1, e4) = read len i t (length-IsWarmedUp len _ t wt) inside in
      (vwap_reading_of a1 r1 v1 t1, rw (ea, e1, er, e2, e3, et, e4) refl)

-- A last index is inside, where at least one candle is asked for.
last_inside :
    (len min_bars : ℕ) → (min_bars == 0) ≡ false → ltb len min_bars ≡ false → len - 1 < len
last_inside len min_bars h k = ground arith

-- Parameters under which no call of an indicator raises.
pub record AreTrendPeriods (params : TrendParams) : Type 0 where
  pub fast : (params.fast_period == 0) ≡ false
  pub slow : (params.slow_period == 0) ≡ false
  pub of_adx : (params.adx_period == 0) ≡ false
  pub of_atr : (params.atr_period == 0) ≡ false
  pub bars : (params.min_bars == 0) ≡ false

pub record AreReversionPeriods (params : MeanReversionParams) : Type 0 where
  pub of_adx : (params.adx_period == 0) ≡ false
  pub of_rsi : (params.rsi_period == 0) ≡ false
  pub of_atr : (params.atr_period == 0) ≡ false
  pub bars : (params.min_bars == 0) ≡ false

module _ (hashing : Hashing) (formatting : Formatting) (id : Uuid) (snapshot : MarketSnapshot)
    (now : Datetime) where
  trend_total :
      (params : TrendParams)
      → AreTrendPeriods params
      → Returns (evaluate_trend hashing formatting params id snapshot now)
  unfolding evaluate_trend
  trend_total params h =
      let klines = snapshot.klines in
      let len = length klines in
      elim (Bool-cases (ltb len params.min_bars)) [
        | inl few ↦ rw few tt
        | inr enough ↦
            let inside = last_inside len params.min_bars h.bars enough in
            let (r, e) =
              trend_reading_total klines (len - 1) inside params h.fast h.slow h.of_adx h.of_atr in
            let (last, e1) = at_in klines (len - 1) inside in
            let (prev, e2) = at_in klines (len - 1 - 1) (omega (arith, inside)) in
            rw (enough, e, e1, e2) tt
      ]

  reversion_total :
      (params : MeanReversionParams)
      → AreReversionPeriods params
      → Returns (evaluate_mean_reversion hashing formatting params id snapshot now)
  unfolding evaluate_mean_reversion
  reversion_total params h =
      let klines = snapshot.klines in
      let len = length klines in
      elim (Bool-cases (ltb len params.min_bars)) [
        | inl few ↦ rw few tt
        | inr enough ↦
            let inside = last_inside len params.min_bars h.bars enough in
            let (r, e) =
              vwap_reading_total klines (len - 1) inside params h.of_adx h.of_rsi h.of_atr in
            let (last, e1) = at_in klines (len - 1) inside in rw (enough, e, e1) tt
      ]

-- What an evaluation gives: it raises nothing, and a signal, if there is one, is made of the snapshot.
abbrev pub Evaluates : Uuid → MarketSnapshot → Datetime → ℕ → Result (Option Signal) → Type 0
Evaluates id snapshot now min_bars m =
    Returns m × Gives (IfFired (IsFrom id snapshot now min_bars)) m

-- With periods above 0 and at least one candle asked for, the trend strategy and the mean reversion raise
-- nothing on any snapshot; and a signal, if one is given, is of the snapshot's pair, dated now, entered at
-- the snapshot's last close, with one target, and only if there are as many candles as are asked for.
pub strategies_evaluate :
    (hashing : Hashing) (formatting : Formatting) (id : Uuid) (snapshot : MarketSnapshot)
    (now : Datetime) (trend : TrendParams) (reversion : MeanReversionParams)
    → AreTrendPeriods trend
    → AreReversionPeriods reversion
    → Evaluates id snapshot now trend.min_bars
        (evaluate_trend hashing formatting trend id snapshot now)
      × Evaluates id snapshot now reversion.min_bars
          (evaluate_mean_reversion hashing formatting reversion id snapshot now)
strategies_evaluate hashing formatting id snapshot now trend reversion h k = (
  (
    trend_total hashing formatting id snapshot now trend h,
    trend-Gives hashing formatting id snapshot now trend,
  ),
  (
    reversion_total hashing formatting id snapshot now reversion k,
    reversion-Gives hashing formatting id snapshot now reversion,
  ),
)
