-- ===== src/Strategies/Indicators/Macd/WarmUp.antt =====
-- The MACD returns for a fast period below the slow one, and each of its lines starts at its own candle.
use nexocrypto.Prelude.{
  sym, Bool-cases, Result, false, if◌then◌else◌, inl, inr, leb, length-drop, ltb, take, true, ◌-◌,
  ◌<◌, ◌==◌, List, [], arith, drop, length, map, none, ok, refl, some, suc, zero, ℕ, ◌+◌, ◌∷◌, ◌≡◌,
  ◌≤◌,
}
use nexocrypto.Strategies.Indicators.Macd.{
  Macd, macd, signal_from, signal_line_of, differences, first_value, operands,
}
use nexocrypto.Decimal.{of_ℕ, Decimal, sub}
use nexocrypto.Strategies.Series.{nones, scan, sum, Series, after_warm_up}
use nexocrypto.Decimal.Sign.{div_const}
use nexocrypto.Shared.{Kline}
use nexocrypto.Strategies.Indicators.Alignment.{
  length-scan, length-IsWarmedUp, IsWarmedUp, WarmsUp, all_none, ema-WarmsUp, short_of,
}

differences-map :
    (xs ys : List Decimal)
    → length xs ≡ length ys
    → (vs : List Decimal) × (differences (map some xs) (map some ys) ≡ map some vs)
      × (length vs ≡ length ys)
unfolding differences
differences-map [] [] same = ([], refl, refl)
differences-map [] (y ∷ ys) same = absurd (omega (arith, same))
differences-map (x ∷ xs) [] same = absurd (omega (arith, same))
differences-map (x ∷ xs) (y ∷ ys) same =
    let (vs, e, l) = differences-map xs ys (omega (arith, same)) in
    (sub x y ∷ vs, rw e refl, omega (arith, l))

differences-after :
    (v w : ℕ) (xs ys : List Decimal)
    → v ≤ w
    → v + length xs ≡ w + length ys
    → (vs : List Decimal) × (differences (after_warm_up v xs) (after_warm_up w ys)
        ≡ after_warm_up w vs)
      × (length vs ≡ length ys)
unfolding differences
differences-after zero zero xs ys h same = differences-map xs ys (omega (arith, same))
differences-after zero (suc w) [] ys h same = absurd (omega (arith, same))
differences-after zero (suc w) (x ∷ xs) ys h same =
    let (vs, e, l) = differences-after zero w xs ys (omega arith) (omega (arith, same)) in
    (vs, rw e refl, l)
differences-after (suc v) zero xs ys h same = absurd (omega (arith, h))
differences-after (suc v) (suc w) xs ys h same =
    let (vs, e, l) = differences-after v w xs ys (omega (arith, h)) (omega (arith, same)) in
    (vs, rw e refl, l)

differences-IsWarmedUp :
    (n v w : ℕ) (s t : Series)
    → v ≤ w
    → IsWarmedUp n v s
    → IsWarmedUp n w t
    → IsWarmedUp n w (differences s t)
differences-IsWarmedUp n v w s t h early late =
    let (vs, e, l) =
      differences-after v w early.values late.values h (omega (arith, early.all, late.all)) in
    record { values = vs; shape = rw (early.shape, late.shape) e; all = omega (arith, l, late.all) }

first_value-after :
    (w : ℕ) (v : Decimal) (vs : List Decimal) → first_value (after_warm_up w (v ∷ vs)) ≡ some w
unfolding first_value
first_value-after zero v vs = refl
first_value-after (suc w) v vs = rw (first_value-after w v vs) refl

first_value-nones : (w : ℕ) → first_value (after_warm_up w []) ≡ none
unfolding first_value
first_value-nones zero = refl
first_value-nones (suc w) = rw (first_value-nones w) refl

operands-map : (vs : List Decimal) → operands (map some vs) ≡ ok vs
unfolding operands
operands-map [] = refl
operands-map (v ∷ vs) = rw (operands-map vs) refl

operands-drop : (w : ℕ) (vs : List Decimal) → operands (drop w (after_warm_up w vs)) ≡ ok vs
operands-drop zero vs = operands-map vs
operands-drop (suc w) vs = operands-drop w vs

-- The warm-up of a signal line over a line of `n` values that has a warm-up of `w` itself.
abbrev signal_warm_up : ℕ → ℕ → ℕ → ℕ
signal_warm_up n w signal = if ltb (n - w) signal then n else w + signal - 1

seeded_after :
    (move : Decimal → Decimal → Decimal) (seed : Decimal) (n w signal : ℕ) (xs : List Decimal)
    → w + length xs ≡ n
    → (signal == 0) ≡ false
    → ltb (n - w) signal ≡ false
    → IsWarmedUp n
        (w + signal - 1)
        (after_warm_up (w + signal - 1) (seed ∷ scan move seed (drop signal xs)))
seeded_after move seed n w signal xs all positive enough = record {
  values = seed ∷ scan move seed (drop signal xs);
  shape = refl;
  all = ground (arith, all, length-scan move seed (drop signal xs), length-drop signal xs);
}

length-after : (w : ℕ) (xs : List Decimal) → length (after_warm_up w xs) ≡ w + length xs
length-after w xs =
    length-IsWarmedUp (w + length xs) w (after_warm_up w xs)
      (record { values = xs; shape = refl; all = refl })

signal_from-WarmsUp :
    (w signal : ℕ) (xs : List Decimal)
    → (signal == 0) ≡ false
    → WarmsUp
        (w + length xs)
        (signal_warm_up (w + length xs) w signal)
        (signal_from (after_warm_up w xs) w signal)
unfolding signal_from
signal_from-WarmsUp w signal xs positive = elim (Bool-cases (ltb (w + length xs - w) signal)) [
  | inl few ↦ rw (length-after w xs, few) (nones (w + length xs), refl, all_none (w + length xs))
  | inr enough ↦
      rw
        (
          length-after w xs,
          enough,
          div_const (of_ℕ 2) (signal + 1) (ground arith),
          operands-drop w xs,
          div_const (sum (take signal xs)) signal positive,
        )
        (_, refl, seeded_after _ _ _ w signal xs refl positive enough)
]

signal_line_of-nones :
    (line : Series) (signal : ℕ)
    → first_value line ≡ none
    → signal_line_of line signal ≡ ok (nones (length line))
unfolding signal_line_of
signal_line_of-nones line signal h = rw (signal_line_of, h) refl

signal_line_of-WarmsUp :
    (w signal : ℕ) (xs : List Decimal)
    → (signal == 0) ≡ false
    → WarmsUp
        (w + length xs)
        (signal_warm_up (w + length xs) w signal)
        (signal_line_of (after_warm_up w xs) signal)
unfolding signal_line_of
signal_line_of-WarmsUp w signal [] positive =
    let few : ltb (w + 0 - w) signal ≡ true = ground arith in
    rw
      (
        signal_line_of-nones (after_warm_up w []) signal (first_value-nones w),
        length-after w [],
        few,
      )
      (nones (w + 0), refl, all_none (w + 0))
signal_line_of-WarmsUp w signal (x ∷ xs) positive =
    rw (signal_line_of, first_value-after w x xs) (signal_from-WarmsUp w signal (x ∷ xs) positive)

signal_line-WarmsUp :
    (n w signal : ℕ) (line : Series)
    → IsWarmedUp n w line
    → (signal == 0) ≡ false
    → WarmsUp n (signal_warm_up n w signal) (signal_line_of line signal)
signal_line-WarmsUp n w signal line warm positive =
    rw (warm.shape, sym warm.all) (signal_line_of-WarmsUp w signal warm.values positive)

-- The two warm-ups together are that of one average, over both periods.
signal_warm_up-short_of :
    (n slow signal : ℕ)
    → (slow == 0) ≡ false
    → (signal == 0) ≡ false
    → signal_warm_up n (short_of n slow) signal ≡ short_of n (slow + signal - 1)
signal_warm_up-short_of n slow signal some_slow some_signal = ground arith

-- The MACD's three series, for `len` candles.
pub record MacdWarmsUp (len slow signal : ℕ) (m : Result Macd) : Type 0 where
  pub out : Macd
  pub returns : m ≡ ok out
  pub of_line : IsWarmedUp len (short_of len slow) out.macd_line
  pub of_signal : IsWarmedUp len (short_of len (slow + signal - 1)) out.signal_line
  pub of_hist : IsWarmedUp len (short_of len (slow + signal - 1)) out.hist

module _ (klines : List Kline) (fast slow signal : ℕ) where
  pub macd-WarmsUp :
      (fast == 0) ≡ false
      → fast < slow
      → (signal == 0) ≡ false
      → MacdWarmsUp (length klines) slow signal (macd klines fast slow signal)
  unfolding macd
  macd-WarmsUp positive ordered some_signal =
      let len = length klines in
      let slow_positive : (slow == 0) ≡ false = ground (arith, ordered) in
      let below : leb slow fast ≡ false = ground (arith, ordered) in
      let (f, ef, wf) = ema-WarmsUp klines fast positive in
      let (s, es, ws) = ema-WarmsUp klines slow slow_positive in
      let line =
        differences-IsWarmedUp len (short_of len fast) (short_of len slow) f s
          (ground (arith, ordered)) wf ws in
      let (t, et, wt) : WarmsUp len (short_of len (slow + signal - 1))
          (signal_line_of (differences f s) signal) =
        rw (sym (signal_warm_up-short_of len slow signal slow_positive some_signal))
          (signal_line-WarmsUp len (short_of len slow) signal (differences f s) line some_signal) in
      rw (positive, slow_positive, some_signal, below, ef, es, et)
        (record {
          out = record {
            macd_line = differences f s;
            signal_line = t;
            hist = differences (differences f s) t;
          };
          returns = refl;
          of_line = line;
          of_signal = wt;
          of_hist =
              differences-IsWarmedUp len (short_of len slow) (short_of len (slow + signal - 1))
                (differences f s) t (ground (arith, ordered, some_signal)) line wt;
        })
