-- ===== src/Decimal/Bounds.antt =====
-- Sums, differences and shares of a number, rounded: on the side of the number where they belong.
use nexocrypto.Decimal.Order.{le_of_scaled, gap_lem, gaps, le_scaled}
use nexocrypto.Prelude.{
  leb→le, ◌+◌, ◌≤◌, +ℤ_parts, -ℤ_parts, arith, neg_part, negsuc, pos, pos_part, true, ℕ, ◌*ℤ◌, ◌*◌,
  ◌<◌, ◌^◌, Bool-cases, if◌then◌else◌, inl, inr, leb, ℤ, ◌+ℤ◌, ◌-ℤ◌, ◌≡◌,
}
use nexocrypto.Decimal.{add, le, mul, of_ℕ, sub, aligned, Decimal, gap}
use nexocrypto.Decimal.Sign.{IsNonneg, aligned_nonneg, coeff_of_nonneg, fix-IsNonneg}
use native.Mathlib.Nat.{mul_assoc, suc-mul, mul-le-mul_left}
use nexocrypto.Decimal.Rounding.{IsExact, le-fix, fix-le}

-- The sum and the difference before rounding.
abbrev exact_add : Decimal → Decimal → Decimal
exact_add a b = record {
  coeff = aligned a b +ℤ aligned b a;
  exp = if leb (gap a b) 0 then a.exp else b.exp;
}

abbrev exact_sub : Decimal → Decimal → Decimal
exact_sub a b = record {
  coeff = aligned a b -ℤ aligned b a;
  exp = if leb (gap a b) 0 then a.exp else b.exp;
}

module _ (a b : Decimal) (c : ℤ) where
  -- A number at the smaller of two exponents.
  abbrev low : Decimal
  low = record { coeff = c; exp = if leb (gap a b) 0 then a.exp else b.exp }

  low_scales : (gap a low ≡ gap a b) × (gap low a ≡ 0)
  low_scales = elim (Bool-cases (leb (gap a b) 0)) [
    | inl e ↦ let same : gap a b ≤ 0 = leb→le _ _ e in rw e (omega gaps, omega gaps)
    | inr e ↦ let more : 0 < gap a b = ground arith in rw e (omega gaps, omega gaps)
  ]

*ℤ_parts_pos :
    (z : ℤ) (t : ℕ)
    → (pos_part (z *ℤ pos t) ≡ pos_part z * t) × (neg_part (z *ℤ pos t) ≡ neg_part z * t)
unfolding ◌*ℤ◌
*ℤ_parts_pos (pos n) t = ground arith
*ℤ_parts_pos (negsuc n) t = ground (arith, suc-mul n t)

aligned_parts :
    (a b : Decimal)
    → (pos_part (aligned a b) ≡ pos_part a.coeff * 10 ^ gap a b)
      × (neg_part (aligned a b) ≡ neg_part a.coeff * 10 ^ gap a b)
unfolding aligned
aligned_parts a b = *ℤ_parts_pos a.coeff (10 ^ gap a b)

module _ (a b : Decimal) (nonneg : IsNonneg b) where
  le-exact_add : le a (exact_add a b) ≡ true
  le-exact_add =
      let z = aligned a b +ℤ aligned b a in
      let (own, other) = low_scales a b z in
      le_of_scaled a (exact_add a b) {i = gap a b} {j = 0} 0 (omega (arith, own))
        (omega (arith, other))
        (omega (
          arith,
          +ℤ_parts (aligned a b) (aligned b a),
          aligned_parts a b,
          aligned_nonneg b a nonneg,
        ))

  exact_sub-le : le (exact_sub a b) a ≡ true
  exact_sub-le =
      let z = aligned a b -ℤ aligned b a in
      let (own, other) = low_scales a b z in
      le_of_scaled (exact_sub a b) a {i = 0} {j = gap a b} 0 (omega (arith, other))
        (omega (arith, own))
        (omega (
          arith,
          -ℤ_parts (aligned a b) (aligned b a),
          aligned_parts a b,
          aligned_nonneg b a nonneg,
        ))

  -- A number of at most 28 digits is not lowered by adding what is not negative, and not raised by
  -- taking it away.
  pub le-add : IsExact a → le a (add a b) ≡ true
  unfolding add
  le-add exact = le-fix a (exact_add a b) exact le-exact_add

  pub sub-le : IsExact a → le (sub a b) a ≡ true
  unfolding sub
  sub-le exact = fix-le a (exact_sub a b) exact exact_sub-le

-- The product before rounding.
abbrev exact_mul : Decimal → Decimal → Decimal
exact_mul a b = record { coeff = a.coeff *ℤ b.coeff; exp = a.exp +ℤ b.exp }

pos_part-mul_negsuc : (p q : ℕ) → pos_part (pos p *ℤ negsuc q) ≡ 0
unfolding ◌*ℤ◌
pos_part-mul_negsuc p q = ground arith

share_scaled :
    (x y : ℤ) (i j : ℕ)
    → neg_part x ≡ 0
    → pos_part y * i ≤ j + neg_part y * i
    → pos_part (x *ℤ y) * i + neg_part x * j ≤ pos_part x * j + neg_part (x *ℤ y) * i
unfolding ◌*ℤ◌
share_scaled (pos p) (pos q) i j h k =
    let less : q * i ≤ j = omega arith in
    rw ((*ℤ_parts_pos (pos p) q).0, (*ℤ_parts_pos (pos p) q).1)
      (omega (arith, mul-le-mul_left p less, mul_assoc p q i))
share_scaled (pos p) (negsuc q) i j h k = rw (pos_part-mul_negsuc p q) (omega arith)
share_scaled (negsuc p) y i j h k = absurd (omega arith)

module _ (a b : Decimal) (nonneg : IsNonneg a) (share : le b (of_ℕ 1) ≡ true) where
  exact_mul-le : le (exact_mul a b) a ≡ true
  exact_mul-le =
      le_of_scaled (exact_mul a b) a {i = gap b (of_ℕ 1)} {j = gap (of_ℕ 1) b} 0
        (omega (arith, gap_lem, +ℤ_parts a.exp b.exp))
        (omega (arith, gap_lem, +ℤ_parts a.exp b.exp))
        (share_scaled a.coeff b.coeff _ _ (coeff_of_nonneg a nonneg) (
          omega (
            arith,
            le_scaled b (of_ℕ 1) {i = gap b (of_ℕ 1)} {j = gap (of_ℕ 1) b} 0 (omega arith)
                (omega arith) share,
          )))

  -- A share of a number of at most 28 digits that is not negative is not above it.
  pub mul-le : IsExact a → le (mul a b) a ≡ true
  unfolding mul
  mul-le exact = fix-le a (exact_mul a b) exact exact_mul-le

nonneg_difference :
    (x y : ℤ) → pos_part y + neg_part x ≤ pos_part x + neg_part y → neg_part (x -ℤ y) ≡ 0
unfolding ◌-ℤ◌
nonneg_difference x y h = ground arith

-- A number less one that is not above it.
pub sub-IsNonneg : (a b : Decimal) → le b a ≡ true → IsNonneg (sub a b)
unfolding sub aligned le
sub-IsNonneg a b h = fix-IsNonneg (aligned a b -ℤ aligned b a) _ (
    nonneg_difference (aligned a b) (aligned b a) (
      rw
        (
          (*ℤ_parts_pos a.coeff (10 ^ gap a b)).0,
          (*ℤ_parts_pos a.coeff (10 ^ gap a b)).1,
          (*ℤ_parts_pos b.coeff (10 ^ gap b a)).0,
          (*ℤ_parts_pos b.coeff (10 ^ gap b a)).1,
        )
        (omega (arith, leb→le _ _ h))))
