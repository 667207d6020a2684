-- ===== src/Strategies/Indicators.antt =====
-- services/engine/src/nexocrypto_engine/strategy/indicators.py: the indicators as folds over the candles. A
-- divisor that is tested, or that has divided before, divides by `quotient`.
pub mod Macd
pub mod Alignment
pub mod Strength
pub mod AllAligned
use nexocrypto.Prelude.{
  ℕ, ◌+◌, ◌-◌, List, [], ◌∷◌, ◌++◌, map, Option, none, some, Bool, ◌&&◌, if◌then◌else◌, ltb, leb,
  ◌==◌, Result, ok, raised, ◌>>=◌, value_error, index_error, length, take, drop,
}
use nexocrypto.Decimal.{Decimal, of_ℕ, add, sub, mul, div, quotient, neg, abs, max, lt, is_zero}
use nexocrypto.Shared.{Kline}
use nexocrypto.Strategies.Series.{Series, nones, sum, written, scan, after_warm_up}

abbrev closes : List Kline → List Decimal
closes klines = map (λ (k : Kline). k.close) klines

abbrev ema_step : Decimal → Decimal → Kline → Decimal
ema_step alpha prev k = add (mul alpha k.close) (mul (sub (of_ℕ 1) alpha) prev)

unfoldable pub ema : List Kline → ℕ → Result Series
ema klines period =
    if period == 0
    then raised value_error
    else if ltb (length klines) period
    then ok (nones (length klines))
    else (do
      alpha ← div (of_ℕ 2) (of_ℕ (period + 1))
      seed ← div (sum (closes (take period klines))) (of_ℕ period)
      ok (after_warm_up (period - 1) (seed ∷ scan (ema_step alpha) seed (drop period klines))))

abbrev smooth_step : Decimal → Decimal → Decimal → Decimal
smooth_step n prev v = add (sub prev (quotient prev n)) v

-- `_wilder_smooth`
unfoldable pub wilder_smooth : List Decimal → ℕ → Result Series
wilder_smooth values period =
    if period == 0
    then raised value_error
    else if ltb (length values) period
    then ok (nones (length values))
    else (let seed = sum (take period values) in
        ok (
          after_warm_up (period - 1)
            (seed ∷ scan (smooth_step (of_ℕ period)) seed (drop period values))))

-- `(avg * (n - 1) + x) / n`
abbrev wilder_mean : Decimal → Decimal → Decimal → Decimal
wilder_mean n avg x = quotient (add (mul avg (sub n (of_ℕ 1))) x) n

-- `_rsi_from_gl`
unfoldable pub rsi_from_gl : Decimal → Decimal → Result Decimal
rsi_from_gl g l =
    if is_zero l
    then ok (if lt (of_ℕ 0) g then of_ℕ 100 else of_ℕ 50)
    else (do rs ← div g l; share ← div (of_ℕ 100) (add (of_ℕ 1) rs); ok (sub (of_ℕ 100) share))

-- The differences of successive closes.
close_moves : Kline → List Kline → List Decimal
close_moves k [] = []
close_moves k (next ∷ ks) = sub next.close k.close ∷ close_moves next ks

abbrev gain : Decimal → Decimal
gain diff = if lt (of_ℕ 0) diff then diff else of_ℕ 0

abbrev loss : Decimal → Decimal
loss diff = if lt diff (of_ℕ 0) then neg diff else of_ℕ 0

pub rsi_loop : Decimal → Decimal → Decimal → List Decimal → Result (List Decimal)
rsi_loop n avg_gain avg_loss [] = ok []
rsi_loop n avg_gain avg_loss (diff ∷ diffs) =
    let g = wilder_mean n avg_gain (gain diff) in
    let l = wilder_mean n avg_loss (loss diff) in
    do value ← rsi_from_gl g l; rest ← rsi_loop n g l diffs; ok (value ∷ rest)

-- The values after the warm-up, from the moves of the close.
pub rsi_values : ℕ → List Decimal → Result Series
unfolding rsi_loop
rsi_values period diffs = do
  avg_gain ← div (sum (take period (map gain diffs))) (of_ℕ period)
  avg_loss ← div (sum (take period (map loss diffs))) (of_ℕ period)
  value ← rsi_from_gl avg_gain avg_loss
  rest ← rsi_loop (of_ℕ period) avg_gain avg_loss (drop period diffs)
  ok (after_warm_up period (value ∷ rest))

all_moves : List Kline → List Decimal
unfolding close_moves
all_moves [] = []
all_moves (k ∷ ks) = close_moves k ks

unfoldable pub rsi : List Kline → ℕ → Result Series
unfolding rsi_values all_moves
rsi klines period =
    if leb (length klines) period
    then ok (nones (length klines))
    else rsi_values period (all_moves klines)

ranges : Kline → List Kline → List Decimal
ranges k [] = []
ranges k (next ∷ ks) =
    max (max (sub next.high next.low) (abs (sub next.high k.close))) (abs (sub next.low k.close))
    ∷ ranges next ks

-- `klines[0]` raises if there is none.
unfoldable pub true_range : List Kline → Result (List Decimal)
unfolding ranges
true_range [] = raised index_error
true_range (k ∷ ks) = ok (sub k.high k.low ∷ ranges k ks)

unfoldable pub atr : List Kline → ℕ → Result Series
atr klines period = if ltb (length klines) period then ok (nones (length klines)) else (do
  tr ← true_range klines
  seed ← div (sum (take period tr)) (of_ℕ period)
  ok (after_warm_up (period - 1) (seed ∷ scan (wilder_mean (of_ℕ period)) seed (drop period tr))))

-- The directional movements after the first candle.
plus_moves : Kline → List Kline → List Decimal
plus_moves k [] = []
plus_moves k (next ∷ ks) =
    let up = sub next.high k.high in
    let down = sub k.low next.low in
    (if lt (of_ℕ 0) up && lt down up then up else of_ℕ 0) ∷ plus_moves next ks

minus_moves : Kline → List Kline → List Decimal
minus_moves k [] = []
minus_moves k (next ∷ ks) =
    let up = sub next.high k.high in
    let down = sub k.low next.low in
    (if lt (of_ℕ 0) down && lt up down then down else of_ℕ 0) ∷ minus_moves next ks

-- `plus_dm` and `minus_dm`; neither is used for an empty list.
abbrev directional : (Kline → List Kline → List Decimal) → List Kline → List Decimal
directional moves [] = []
directional moves (k ∷ ks) = of_ℕ 0 ∷ moves k ks

dx_of : Decimal → Decimal → Decimal → Decimal
dx_of ts ps ms =
    let plus_di = quotient (mul (of_ℕ 100) ps) ts in
    let minus_di = quotient (mul (of_ℕ 100) ms) ts in
    let denom = add plus_di minus_di in
    if is_zero denom then of_ℕ 0 else quotient (mul (of_ℕ 100) (abs (sub plus_di minus_di))) denom

-- The series of DX, without the candles that have none.
dx_series : Series → Series → Series → List Decimal
unfolding dx_of
dx_series (some ts ∷ tss) (some ps ∷ pss) (some ms ∷ mss) =
    let rest = dx_series tss pss mss in if is_zero ts then rest else dx_of ts ps ms ∷ rest
dx_series (_ ∷ tss) (_ ∷ pss) (_ ∷ mss) = dx_series tss pss mss
dx_series _ _ _ = []

-- The smoothed DX at its places among `len` candles, the first at `2 * period - 1`.
pub adx_out : ℕ → ℕ → List Decimal → Series
adx_out len period dxs =
    let first_idx = (period - 1) + (period - 1) + 1 in
    let n = of_ℕ period in
    let seed = quotient (sum (take period dxs)) n in
    if ltb (length dxs) period
    then nones len
    else if leb len first_idx
    then nones len
    else nones first_idx
      ++ some seed ∷ written (len - first_idx - 1) (scan (wilder_mean n) seed (drop period dxs))

unfoldable pub adx : List Kline → ℕ → Result Series
unfolding plus_moves minus_moves dx_series adx_out
adx klines period = if leb (length klines) period then ok (nones (length klines)) else (do
  tr ← true_range klines
  tr_s ← wilder_smooth tr period
  plus_s ← wilder_smooth (directional plus_moves klines) period
  minus_s ← wilder_smooth (directional minus_moves klines) period
  ok (adx_out (length klines) period (dx_series tr_s plus_s minus_s)))

vwap_from : Decimal → Decimal → List Kline → Series
vwap_from cum_pv cum_v [] = []
vwap_from cum_pv cum_v (k ∷ ks) =
    let typical = quotient (add (add k.high k.low) k.close) (of_ℕ 3) in
    let pv = add cum_pv (mul typical k.volume) in
    let v = add cum_v k.volume in
    (if lt (of_ℕ 0) v then some (quotient pv v) else none) ∷ vwap_from pv v ks

unfoldable pub vwap : List Kline → Series
unfolding vwap_from
vwap klines = vwap_from (of_ℕ 0) (of_ℕ 0) klines
