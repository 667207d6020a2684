-- ===== src/Strategies/Indicators/Macd.antt =====
-- `macd` of strategy/indicators.py: the line, its signal line and their difference, one value each for each
-- candle. Arithmetic on a `None` raises, as Python's does.
pub mod WarmUp
use nexocrypto.Decimal.{Decimal, of_ℕ, add, sub, mul, div}
use nexocrypto.Strategies.Series.{Series, nones, sum, scan, after_warm_up}
use nexocrypto.Prelude.{
  List, Option, Result, [], drop, if◌then◌else◌, leb, length, ltb, map, none, ok, raised, some, suc,
  take, type_error, value_error, ℕ, ◌+◌, ◌-◌, ◌==◌, ◌>>=◌, ◌||◌, ◌∷◌,
}
use mathlib.Core.Option
use nexocrypto.Shared.{Kline}
use nexocrypto.Strategies.Indicators.{ema}

-- `(a - b) if (a is not None and b is not None) else None`
abbrev pub minus : Option Decimal → Option Decimal → Option Decimal
minus (some a) (some b) = some (sub a b)
minus (some a) none = none
minus none b = none

-- The differences of two zipped series.
unfoldable pub differences : Series → Series → Series
differences (a ∷ rest) (b ∷ bs) = minus a b ∷ differences rest bs
differences (a ∷ rest) [] = []
differences [] bs = []

-- The index of the first value.
unfoldable pub first_value : Series → Option ℕ
first_value [] = none
first_value (some v ∷ vs) = some 0
first_value (none ∷ vs) = Option.map suc (first_value vs)

-- The operands of the arithmetic on the tail.
unfoldable pub operands : Series → Result (List Decimal)
operands [] = ok []
operands (none ∷ vs) = raised type_error
operands (some v ∷ vs) = do ds ← operands vs; ok (v ∷ ds)

abbrev pub signal_step : Decimal → Decimal → Decimal → Decimal
signal_step alpha prev v = add (mul alpha v) (mul (sub (of_ℕ 1) alpha) prev)

-- The signal line of a line whose first value is at `first`.
unfoldable pub signal_from : Series → ℕ → ℕ → Result Series
unfolding operands
signal_from line first signal =
    if ltb (length line - first) signal then ok (nones (length line)) else (do
      alpha ← div (of_ℕ 2) (of_ℕ (signal + 1))
      tail ← operands (drop first line)
      seed ← div (sum (take signal tail)) (of_ℕ signal)
      ok (
          after_warm_up (first + signal - 1)
            (seed ∷ scan (signal_step alpha) seed (drop signal tail))))

unfoldable pub signal_line_of : Series → ℕ → Result Series
unfolding first_value signal_from
signal_line_of line signal = elim (first_value line) [
  | none ↦ ok (nones (length line))
  | some first ↦ signal_from line first signal
]

pub record Macd : Type 0 where
  pub macd_line : Series
  pub signal_line : Series
  pub hist : Series

unfoldable pub macd : List Kline → ℕ → ℕ → ℕ → Result Macd
unfolding differences signal_line_of
macd klines fast slow signal =
    if fast == 0 || slow == 0 || signal == 0
    then raised value_error
    else if leb slow fast
    then raised value_error
    else (do
      ema_fast ← ema klines fast
      ema_slow ← ema klines slow
      signal_line ← signal_line_of (differences ema_fast ema_slow) signal
      ok (record {
        macd_line = differences ema_fast ema_slow;
        signal_line = signal_line;
        hist = differences (differences ema_fast ema_slow) signal_line;
      }))
