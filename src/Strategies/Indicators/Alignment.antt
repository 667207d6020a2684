-- ===== src/Strategies/Indicators/Alignment.antt =====
-- The indicators return for every period above 0, with one value for each candle, absent in the warm-up
-- and nowhere else.
use nexocrypto.Prelude.{
  append_nil, ◌<◌, if◌then◌else◌, ℕ, ◌+◌, ◌-◌, List, [], ◌∷◌, map, Option, none, some, ltb, ◌==◌,
  Result, ok, ◌≡◌, refl, false, length, take, drop, arith, Bool-cases, inl, inr, length-append,
  length-replicate, length-drop,
}
use nexocrypto.Decimal.{quotient, Decimal, of_ℕ}
use nexocrypto.Shared.{Kline}
use nexocrypto.Strategies.Series.{sum, Series, nones, scan, after_warm_up}
use nexocrypto.Decimal.Sign.{div_const}
use nexocrypto.Strategies.Indicators.{
  wilder_mean, ranges, atr, true_range, ema, wilder_smooth, closes,
}

-- The values of `n` candles whose first `warm_up` have none.
pub record IsWarmedUp (n warm_up : ℕ) (out : Series) : Type 0 where
  pub values : List Decimal
  pub shape : out ≡ after_warm_up warm_up values
  pub all : warm_up + length values ≡ n

pub all_none : (n : ℕ) → IsWarmedUp n n (nones n)
all_none n = record { values = []; shape = append_nil (nones n); all = omega arith }

length-map-some : (vs : List Decimal) → length (map some vs) ≡ length vs
length-map-some [] = refl
length-map-some (v ∷ vs) = omega (arith, length-map-some vs)

-- A series has one value for each candle.
pub length-IsWarmedUp : (n warm_up : ℕ) (out : Series) → IsWarmedUp n warm_up out → length out ≡ n
length-IsWarmedUp n warm_up out warm =
    rw
      (
        warm.shape,
        length-append (nones warm_up) (map some warm.values),
        length-map-some warm.values,
      )
      (omega (arith, length-replicate {A = Option Decimal} warm_up none, warm.all))

pub length-scan {ℓ} :
    {A : Type ℓ} (step : Decimal → A → Decimal) (prev : Decimal) (xs : List A)
    → length (scan step prev xs) ≡ length xs
unfolding scan
length-scan step prev [] = refl
length-scan step prev (x ∷ xs) = omega (arith, length-scan step (step prev x) xs)

-- The warm-up of an average over `period` candles: one candle short of it, or all there are.
abbrev pub short_of : ℕ → ℕ → ℕ
short_of len period = if ltb len period then len else period - 1

pub seeded {ℓ} :
    {A : Type ℓ} (step : Decimal → A → Decimal) (seed : Decimal) (period n : ℕ) (xs : List A)
    → length xs ≡ n
    → (period == 0) ≡ false
    → ltb n period ≡ false
    → IsWarmedUp n
        (period - 1)
        (after_warm_up (period - 1) (seed ∷ scan step seed (drop period xs)))
seeded step seed period n xs same positive enough = record {
  values = seed ∷ scan step seed (drop period xs);
  shape = refl;
  all = ground (arith, same, length-scan step seed (drop period xs), length-drop period xs);
}

length-ranges : (k : Kline) (ks : List Kline) → length (ranges k ks) ≡ length ks
unfolding ranges
length-ranges k [] = refl
length-ranges k (next ∷ ks) = omega (arith, length-ranges next ks)

-- The true ranges of some candles, one for each.
pub true_range_lem :
    (klines : List Kline)
    → 0 < length klines
    → (tr : List Decimal) × (true_range klines ≡ ok tr) × (length tr ≡ length klines)
unfolding true_range
true_range_lem [] some_kline = absurd (omega arith)
true_range_lem (k ∷ ks) some_kline = (_, refl, omega (arith, length-ranges k ks))

-- What an indicator gives that has its first value with the candle after `warm_up` others.
abbrev pub WarmsUp : ℕ → ℕ → Result Series → Type 0
WarmsUp len warm_up m = (out : Series) × (m ≡ ok out) × IsWarmedUp len warm_up out

module _ (klines : List Kline) (period : ℕ) (positive : (period == 0) ≡ false) where
  pub ema-WarmsUp : WarmsUp (length klines) (short_of (length klines) period) (ema klines period)
  unfolding ema
  ema-WarmsUp = elim (Bool-cases (ltb (length klines) period)) [
    | inl few ↦ rw (positive, few) (nones (length klines), refl, all_none (length klines))
    | inr enough ↦
        rw
          (
            positive,
            enough,
            div_const (of_ℕ 2) (period + 1) (ground arith),
            div_const (sum (closes (take period klines))) period positive,
          )
          (_, refl, seeded _ _ period _ klines refl positive enough)
  ]

  pub wilder-WarmsUp :
      (values : List Decimal)
      → WarmsUp (length values) (short_of (length values) period) (wilder_smooth values period)
  unfolding wilder_smooth
  wilder-WarmsUp values = elim (Bool-cases (ltb (length values) period)) [
    | inl few ↦ rw (positive, few) (nones (length values), refl, all_none (length values))
    | inr enough ↦ rw (positive, enough) (_, refl, seeded _ _ period _ values refl positive enough)
  ]

  pub atr-WarmsUp : WarmsUp (length klines) (short_of (length klines) period) (atr klines period)
  unfolding atr
  atr-WarmsUp = elim (Bool-cases (ltb (length klines) period)) [
    | inl few ↦ rw few (nones (length klines), refl, all_none (length klines))
    | inr enough ↦
        let (tr, e, same) = true_range_lem klines (ground arith) in
        let seed = quotient (sum (take period tr)) (of_ℕ period) in
        rw (enough, e, div_const (sum (take period tr)) period positive)
          (
            after_warm_up (period - 1)
                (seed ∷ scan (wilder_mean (of_ℕ period)) seed (drop period tr)),
            refl,
            seeded (wilder_mean (of_ℕ period)) seed period (length klines) tr same positive enough,
          )
  ]
