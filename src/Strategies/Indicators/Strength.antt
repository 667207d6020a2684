-- ===== src/Strategies/Indicators/Strength.antt =====
-- The RSI never divides by 0 and stays at or below 100, and the ADX has one value for each candle.
pub mod Means
use nexocrypto.Decimal.{gap, mul, Decimal, add, div, is_zero, le, lt, of_ℕ, quotient, sub}
use nexocrypto.Strategies.Series.{Series, nones, sum, sum_from, scan, after_warm_up, written}
use nexocrypto.Prelude.{
  append_nil, Option, Result, ap, leb, length-append, length-replicate, ltb, none, some, ◌-◌, Bool,
  drop, false, if◌then◌else◌, length, length-drop, ◌+◌, ◌-ℤ◌, ◌==◌, ◌≤◌, Bool-cases, List, [],
  arith, inl, inr, map, ok, refl, suc, take, true, zero, ℕ, ◌∷◌, ◌≡◌,
}
use nexocrypto.Decimal.Order.{le_trans, lt_of_not_le, le_refl, le_total, lt-eq-not-le}
use nexocrypto.Decimal.Sign.{
  div_const, div_of_pos, mul-IsNonneg, IsNonneg, add-IsNonneg, neg-IsNonneg, quotient-IsNonneg,
}
use nexocrypto.Decimal.Bounds.{le-add, sub-IsNonneg, sub-le}
use nexocrypto.Shared.{Kline}
use nexocrypto.Strategies.Indicators.{
  gain, loss, rsi, rsi_from_gl, rsi_loop, rsi_values, wilder_mean, all_moves, close_moves, adx_out,
}
use nexocrypto.Strategies.Indicators.Strength.Means.{
  one_le, not_le_one, div_of_nonzero, pos_of_one_le, gain-IsNonneg, loss-IsNonneg, mean-IsNonneg,
  wilder_mean-IsNonneg, of_ℕ-IsNonneg,
}

at_most_100 : (b : Bool) → le (if b then of_ℕ 100 else of_ℕ 50) (of_ℕ 100) ≡ true
unfolding le
at_most_100 true = refl
at_most_100 false = refl

-- The index of a gain and a loss.
rsi_from_gl_lem :
    (g l : Decimal)
    → IsNonneg g
    → IsNonneg l
    → (v : Decimal) × (rsi_from_gl g l ≡ ok v) × (le v (of_ℕ 100) ≡ true)
unfolding rsi_from_gl
rsi_from_gl_lem g l hg hl = elim (Bool-cases (is_zero l)) [
  | inl none_lost ↦ rw none_lost (_, refl, at_most_100 (lt (of_ℕ 0) g))
  | inr some_lost ↦
      let rs = quotient g l in
      let nonneg = quotient-IsNonneg g l hg hl in
      let above = le-add (of_ℕ 1) rs nonneg (omega arith) in
      rw
        (
          some_lost,
          div_of_nonzero g l some_lost,
          div_of_pos (of_ℕ 100) (add (of_ℕ 1) rs) (pos_of_one_le (add (of_ℕ 1) rs) above),
        )
        (
          sub (of_ℕ 100) (quotient (of_ℕ 100) (add (of_ℕ 1) rs)),
          refl,
          sub-le (of_ℕ 100) (quotient (of_ℕ 100) (add (of_ℕ 1) rs))
              (quotient-IsNonneg (of_ℕ 100) (add (of_ℕ 1) rs) (of_ℕ-IsNonneg 100)
                (add-IsNonneg (of_ℕ 1) rs (of_ℕ-IsNonneg 1) nonneg))
              (omega arith),
        )
]

abbrev pub AtMost100 : List Decimal → Type 0
AtMost100 [] = Unit
AtMost100 (v ∷ vs) = (le v (of_ℕ 100) ≡ true) × AtMost100 vs

rsi_loop_lem :
    (n : ℕ) (g l : Decimal) (diffs : List Decimal)
    → (n == 0) ≡ false
    → IsNonneg g
    → IsNonneg l
    → (vs : List Decimal) × (rsi_loop (of_ℕ n) g l diffs ≡ ok vs)
      × (length vs ≡ length diffs)
      × AtMost100 vs
unfolding rsi_loop
rsi_loop_lem n g l [] positive hg hl = ([], refl, refl, tt)
rsi_loop_lem n g l (diff ∷ diffs) positive hg hl =
    let g' = wilder_mean (of_ℕ n) g (gain diff) in
    let l' = wilder_mean (of_ℕ n) l (loss diff) in
    let hg' = wilder_mean-IsNonneg n g (gain diff) positive hg (gain-IsNonneg diff) in
    let hl' = wilder_mean-IsNonneg n l (loss diff) positive hl (loss-IsNonneg diff) in
    let (v, e, bound) = rsi_from_gl_lem g' l' hg' hl' in
    let (vs, es, same, bounds) = rsi_loop_lem n g' l' diffs positive hg' hl' in
    (v ∷ vs, rw (e, es) refl, omega (arith, same), (bound, bounds))

rsi_values_lem :
    (n : ℕ) (diffs : List Decimal)
    → (n == 0) ≡ false
    → n ≤ length diffs
    → (vs : List Decimal) × (rsi_values n diffs ≡ ok (after_warm_up n vs))
      × (n + length vs ≡ length diffs + 1)
      × AtMost100 vs
unfolding rsi_values
rsi_values_lem n diffs positive enough =
    let hg = mean-IsNonneg gain gain-IsNonneg n diffs in
    let hl = mean-IsNonneg loss loss-IsNonneg n diffs in
    let g = quotient (sum (take n (map gain diffs))) (of_ℕ n) in
    let l = quotient (sum (take n (map loss diffs))) (of_ℕ n) in
    let (v, e, bound) = rsi_from_gl_lem g l hg hl in
    let (vs, es, same, bounds) = rsi_loop_lem n g l (drop n diffs) positive hg hl in
    (
      v ∷ vs,
      rw
          (
            div_const (sum (take n (map gain diffs))) n positive,
            div_const (sum (take n (map loss diffs))) n positive,
            e,
            es,
          )
          refl,
      omega (arith, same, length-drop n diffs, enough),
      (bound, bounds),
    )

length-close_moves : (k : Kline) (ks : List Kline) → length (close_moves k ks) ≡ length ks
unfolding close_moves
length-close_moves k [] = refl
length-close_moves k (next ∷ ks) = omega (arith, length-close_moves next ks)

length-all_moves : (klines : List Kline) → length (all_moves klines) ≡ length klines - 1
unfolding all_moves
length-all_moves [] = refl
length-all_moves (k ∷ ks) = omega (arith, length-close_moves k ks)

-- What the RSI gives: no values in the warm-up, and after it values of at most 100.
abbrev pub IsBounded : ℕ → ℕ → Result Series → Type 0
IsBounded len warm_up m =
    (vs : List Decimal) × (m ≡ ok (after_warm_up warm_up vs))
    × (warm_up + length vs ≡ len)
    × AtMost100 vs

-- The first `period` candles, or all there are.
abbrev pub first_of : ℕ → ℕ → ℕ
first_of len period = if leb len period then len else period

pub rsi-IsBounded :
    (klines : List Kline) (period : ℕ)
    → (period == 0) ≡ false
    → IsBounded (length klines) (first_of (length klines) period) (rsi klines period)
unfolding rsi
rsi-IsBounded klines period positive = elim (Bool-cases (leb (length klines) period)) [
  | inl few ↦ rw few ([], ap ok (append_nil (nones (length klines))), omega arith, tt)
  | inr enough ↦
      let (vs, e, same, bounds) =
        rsi_values_lem period (all_moves klines) positive
          (ground (arith, length-all_moves klines)) in
      rw enough (vs, e, ground (arith, same, length-all_moves klines), bounds)
]

length-written : (n : ℕ) (ds : List Decimal) → length (written n ds) ≡ n
unfolding written
length-written zero ds = refl
length-written (suc n) [] = omega (arith, length-written n [])
length-written (suc n) (d ∷ ds) = omega (arith, length-written n ds)

pub length-adx_out : (len period : ℕ) (dxs : List Decimal) → length (adx_out len period dxs) ≡ len
unfolding adx_out
length-adx_out len period dxs =
    let first_idx = (period - 1) + (period - 1) + 1 in
    let n = of_ℕ period in
    let seed = quotient (sum (take period dxs)) n in
    let tail = scan (wilder_mean n) seed (drop period dxs) in
    elim (Bool-cases (ltb (length dxs) period)) [
      | inl few ↦ rw few (length-replicate len none)
      | inr enough ↦ elim (Bool-cases (leb len first_idx)) [
        | inl short_of_it ↦ rw (enough, short_of_it) (length-replicate len none)
        | inr inside ↦
            rw
              (
                enough,
                inside,
                length-append (nones first_idx) (some seed ∷ written (len - first_idx - 1) tail),
                length-written (len - first_idx - 1) tail,
                length-replicate {A = Option Decimal} first_idx none,
              )
              (ground arith)
      ]
    ]
