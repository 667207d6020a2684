-- ===== src/Strategies/Indicators/Strength/Means.antt =====
-- The gains and losses of the RSI and their means are not negative.
use nexocrypto.Decimal.{gap, mul, Decimal, add, div, is_zero, le, lt, of_ℕ, quotient, sub}
use nexocrypto.Strategies.Series.{sum, sum_from}
use nexocrypto.Prelude.{
  false, ◌-ℤ◌, ◌==◌, Bool-cases, List, [], arith, inl, inr, map, ok, refl, suc, take, true, zero, ℕ,
  ◌∷◌, ◌≡◌,
}
use nexocrypto.Decimal.Order.{le_trans, lt_of_not_le, le_refl, le_total, lt-eq-not-le}
use nexocrypto.Decimal.Sign.{mul-IsNonneg, IsNonneg, add-IsNonneg, neg-IsNonneg, quotient-IsNonneg}
use nexocrypto.Decimal.Bounds.{sub-IsNonneg}
use nexocrypto.Strategies.Indicators.{gain, loss, wilder_mean}

pub gain-IsNonneg : (d : Decimal) → IsNonneg (gain d)
gain-IsNonneg d = ground (arith, lt-eq-not-le (of_ℕ 0) d, le_total (of_ℕ 0) d, le_refl (of_ℕ 0))

pub loss-IsNonneg : (d : Decimal) → IsNonneg (loss d)
loss-IsNonneg d = elim (Bool-cases (lt d (of_ℕ 0))) [
  | inl down ↦
      rw down (neg-IsNonneg d (ground (arith, lt-eq-not-le d (of_ℕ 0), le_total d (of_ℕ 0))))
  | inr up ↦ rw up (le_refl (of_ℕ 0))
]

pub of_ℕ-IsNonneg : (n : ℕ) → IsNonneg (of_ℕ n)
unfolding le
of_ℕ-IsNonneg n = ground arith

pub one_le : (n : ℕ) → (n == 0) ≡ false → le (of_ℕ 1) (of_ℕ n) ≡ true
unfolding le gap ◌-ℤ◌
one_le n h = ground arith

pub not_le_one : le (of_ℕ 1) (of_ℕ 0) ≡ true → ⊥
unfolding le
not_le_one h = cc

pub div_of_nonzero : (a b : Decimal) → is_zero b ≡ false → div a b ≡ ok (quotient a b)
unfolding div
div_of_nonzero a b h = rw h refl

pub pos_of_one_le : (x : Decimal) → le (of_ℕ 1) x ≡ true → lt (of_ℕ 0) x ≡ true
pos_of_one_le x h = elim (Bool-cases (le x (of_ℕ 0))) [
  | inl bad ↦ absurd (not_le_one (le_trans (of_ℕ 1) x (of_ℕ 0) h bad))
  | inr good ↦ lt_of_not_le x (of_ℕ 0) good
]

-- The mean of the first moves.
module _ (f : Decimal → Decimal) (nonneg : (d : Decimal) → IsNonneg (f d)) where
  sum_from-IsNonneg :
      (total : Decimal) (n : ℕ) (ds : List Decimal)
      → IsNonneg total
      → IsNonneg (sum_from total (take n (map f ds)))
  unfolding sum_from
  sum_from-IsNonneg total zero ds h = h
  sum_from-IsNonneg total (suc n) [] h = h
  sum_from-IsNonneg total (suc n) (d ∷ ds) h =
      sum_from-IsNonneg (add total (f d)) n ds (add-IsNonneg total (f d) h (nonneg d))

  pub mean-IsNonneg :
      (n : ℕ) (ds : List Decimal) → IsNonneg (quotient (sum (take n (map f ds))) (of_ℕ n))
  unfolding sum
  mean-IsNonneg n ds =
      quotient-IsNonneg (sum (take n (map f ds))) (of_ℕ n)
        (sum_from-IsNonneg (of_ℕ 0) n ds (le_refl (of_ℕ 0))) (of_ℕ-IsNonneg n)

-- The next mean of moves that are not negative.
pub wilder_mean-IsNonneg :
    (n : ℕ) (avg x : Decimal)
    → (n == 0) ≡ false
    → IsNonneg avg
    → IsNonneg x
    → IsNonneg (wilder_mean (of_ℕ n) avg x)
wilder_mean-IsNonneg n avg x positive h k =
    let less = sub (of_ℕ n) (of_ℕ 1) in
    quotient-IsNonneg (add (mul avg less) x) (of_ℕ n)
      (add-IsNonneg (mul avg less) x
        (mul-IsNonneg avg less h (sub-IsNonneg (of_ℕ n) (of_ℕ 1) (one_le n positive))) k)
      (of_ℕ-IsNonneg n)
