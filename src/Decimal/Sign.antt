-- ===== src/Decimal/Sign.antt =====
-- Signs under the rounded operations: sums, products and quotients of numbers that are not negative
-- are not negative, and division by a number other than 0 does not raise.
use nexocrypto.Prelude.{
  ℕ, zero, suc, ◌+◌, ◌*◌, ◌^◌, ltb→lt, ◌==◌, ◌≡◌, refl, inl, inr, ◌≤◌, ◌<◌, true, false, arith,
  leb→le, le→leb, Bool-cases, ℤ, pos, negsuc, pos_part, neg_part, ◌+ℤ◌, ◌*ℤ◌, ◌-ℤ◌, ok,
}
use mathlib.Core.Path.{subst}
use nexocrypto.Decimal.Order.{ten_pow_pos, lt-eq-not-le}
use nexocrypto.Decimal.{
  Decimal, gap, aligned, with_sign, fix, le, lt, is_zero, of_ℕ, add, mul, abs, neg, quotient, div,
}

abbrev pub IsNonneg : Decimal → Type 0
IsNonneg d = le (of_ℕ 0) d ≡ true

sign_of_scaled : (z : ℤ) (t : ℕ) → 0 < t → neg_part z * t ≤ pos_part z * t → neg_part z ≡ 0
sign_of_scaled (pos m) t p h = refl
sign_of_scaled (negsuc m) t p h = grind arith

-- The sign is the sign of the coefficient.
pub coeff_of_nonneg : (d : Decimal) → IsNonneg d → neg_part d.coeff ≡ 0
unfolding le
coeff_of_nonneg d h =
    sign_of_scaled d.coeff _ (ten_pow_pos (gap d (of_ℕ 0))) (omega (arith, leb→le _ _ h))

IsNonneg-of_coeff : (d : Decimal) → neg_part d.coeff ≡ 0 → IsNonneg d
unfolding le
IsNonneg-of_coeff d h = le→leb _ _ (rw h (omega arith))

with_sign_nonneg : (z : ℤ) (n : ℕ) → neg_part z ≡ 0 → neg_part (with_sign z n) ≡ 0
with_sign_nonneg (pos m) n h = refl
with_sign_nonneg (negsuc m) n h = absurd (omega arith)

pub fix-IsNonneg : (z e : ℤ) → neg_part z ≡ 0 → IsNonneg (fix (record { coeff = z; exp = e }))
unfolding fix
fix-IsNonneg z e h = IsNonneg-of_coeff _ (with_sign_nonneg z _ h)

*ℤ_nonneg : (a b : ℤ) → neg_part a ≡ 0 → neg_part b ≡ 0 → neg_part (a *ℤ b) ≡ 0
unfolding ◌*ℤ◌
*ℤ_nonneg (pos m) (pos n) h k = ground arith
*ℤ_nonneg (negsuc m) b h k = absurd (omega arith)
*ℤ_nonneg (pos m) (negsuc n) h k = absurd (omega arith)

+ℤ_nonneg : (a b : ℤ) → neg_part a ≡ 0 → neg_part b ≡ 0 → neg_part (a +ℤ b) ≡ 0
unfolding ◌+ℤ◌
+ℤ_nonneg a b h k = ground arith

pub mul-IsNonneg : (a b : Decimal) → IsNonneg a → IsNonneg b → IsNonneg (mul a b)
unfolding mul
mul-IsNonneg a b h k =
    fix-IsNonneg (a.coeff *ℤ b.coeff) _
      (*ℤ_nonneg a.coeff b.coeff (coeff_of_nonneg a h) (coeff_of_nonneg b k))

pub aligned_nonneg : (a b : Decimal) → IsNonneg a → neg_part (aligned a b) ≡ 0
unfolding aligned
aligned_nonneg a b h = *ℤ_nonneg a.coeff (pos (10 ^ gap a b)) (coeff_of_nonneg a h) refl

pub add-IsNonneg : (a b : Decimal) → IsNonneg a → IsNonneg b → IsNonneg (add a b)
unfolding add
add-IsNonneg a b h k =
    fix-IsNonneg (aligned a b +ℤ aligned b a) _
      (+ℤ_nonneg (aligned a b) (aligned b a) (aligned_nonneg a b h) (aligned_nonneg b a k))

pub quotient-IsNonneg : (a b : Decimal) → IsNonneg a → IsNonneg b → IsNonneg (quotient a b)
unfolding quotient
quotient-IsNonneg a b h k =
    let sign = with_sign a.coeff 1 *ℤ with_sign b.coeff 1 in
    fix-IsNonneg (with_sign sign _) _ (
      with_sign_nonneg sign _ (
        *ℤ_nonneg (with_sign a.coeff 1) (with_sign b.coeff 1)
          (with_sign_nonneg a.coeff 1 (coeff_of_nonneg a h))
          (with_sign_nonneg b.coeff 1 (coeff_of_nonneg b k))))

pub abs-IsNonneg : (a : Decimal) → IsNonneg (abs a)
unfolding abs
abs-IsNonneg a = fix-IsNonneg (pos (pos_part a.coeff + neg_part a.coeff)) a.exp refl

not_zero_of_scaled :
    (z : ℤ) (t : ℕ) → neg_part z * t < pos_part z * t → (pos_part z + neg_part z == 0) ≡ false
not_zero_of_scaled (pos zero) t h = absurd (omega arith)
not_zero_of_scaled (pos (suc m)) t h = ground arith
not_zero_of_scaled (negsuc m) t h = absurd (omega arith)

pub is_zero_of_pos : (b : Decimal) → lt (of_ℕ 0) b ≡ true → is_zero b ≡ false
unfolding lt is_zero
is_zero_of_pos b h = not_zero_of_scaled b.coeff (10 ^ gap b (of_ℕ 0)) (omega (arith, ltb→lt _ _ h))

-- A number above 0 can be divided by.
pub div_of_pos : (a b : Decimal) → lt (of_ℕ 0) b ≡ true → div a b ≡ ok (quotient a b)
unfolding div
div_of_pos a b h = rw (is_zero_of_pos b h)

pub div_of_not_le : (a b : Decimal) → le b (of_ℕ 0) ≡ false → div a b ≡ ok (quotient a b)
div_of_not_le a b h = div_of_pos a b (ground (arith, lt-eq-not-le (of_ℕ 0) b))

pub div-IsNonneg :
    (a b : Decimal) {q : Decimal} → IsNonneg a → IsNonneg b → div a b ≡ ok q → IsNonneg q
unfolding div
div-IsNonneg a b {q} h k e = elim (Bool-cases (is_zero b)) [
  | inl z ↦ cc
  | inr n ↦ subst IsNonneg (ground arith) (quotient-IsNonneg a b h k)
]

pub div_const : (a : Decimal) (n : ℕ) → (n == 0) ≡ false → div a (of_ℕ n) ≡ ok (quotient a (of_ℕ n))
unfolding div is_zero
div_const a n h = ground arith

nonpos_of_scaled : (z : ℤ) (t : ℕ) → 0 < t → pos_part z * t ≤ neg_part z * t → pos_part z ≡ 0
nonpos_of_scaled (pos m) t p h = grind arith
nonpos_of_scaled (negsuc m) t p h = refl

opposite_nonneg : (z : ℤ) → pos_part z ≡ 0 → neg_part (pos 0 -ℤ z) ≡ 0
unfolding ◌-ℤ◌
opposite_nonneg z h = ground arith

pub neg-IsNonneg : (d : Decimal) → le d (of_ℕ 0) ≡ true → IsNonneg (neg d)
unfolding neg le
neg-IsNonneg d h = fix-IsNonneg (pos 0 -ℤ d.coeff) d.exp (
    opposite_nonneg d.coeff
      (nonpos_of_scaled d.coeff _ (ten_pow_pos (gap d (of_ℕ 0))) (omega (arith, leb→le _ _ h))))
