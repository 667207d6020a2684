-- ===== src/Decimal/Rounding.antt =====
-- Rounding to the context: it never crosses a number of at most 28 digits.
pub mod Digits
use native.Mathlib.Nat.{
  add-zero, mod-add-div', mul-le-mul_right, div-mul-le_self, mul_assoc, lt_of_mul-lt-mul_right,
  suc-mul, le_of_mul-le-mul_right, div-lt_iff_lt-mul, pow-suc, pow-le-pow_right, le-div_iff_mul-le,
}
use nexocrypto.Decimal.{
  fix, with_sign, Decimal, gap, le, digits_from, num_digits, round_half_even, round_up,
}
use nexocrypto.Prelude.{
  +ℤ_parts, ◌+ℤ◌, neg_part, negsuc, pos, pos_part, ℤ, ap, leb, ◌∙◌, false, if◌then◌else◌, ltb, true,
  ◌+◌, ◌/◌, ◌%◌, ◌-◌, ◌⊎◌, Bool-cases, arith, inl, inr, refl, suc, zero, ℕ, ◌*◌, ◌/◌, ◌<◌, ◌==◌,
  ◌^◌, ◌≡◌, ◌≤◌,
}
use nexocrypto.Decimal.Rounding.Digits.{IsCut, round_half_even_lem}
use nexocrypto.Decimal.Order.{gap_lem, le_of_scaled, le_scaled, ten_pow_add, ten_pow_pos}

-- The powers of the two scales: either the digit of the number ends at or above the cut, or below it.
scale_split :
    (i cut j : ℕ)
    → ((t : ℕ) × (10 ^ i ≡ 10 ^ t * 10 ^ cut * 10 ^ j)) ⊎ (10 * 10 ^ i ≤ 10 ^ cut * 10 ^ j)
scale_split i cut j = elim (Bool-cases (leb (cut + j) i)) [
  | inl above ↦
      let t = i - (cut + j) in
      inl (
        t,
        ap (λ (e : ℕ). 10 ^ e) {x = i} {y = t + cut + j} (ground arith)
            ∙ ten_pow_add (t + cut) j
            ∙ ap (λ (p : ℕ). p * 10 ^ j) (ten_pow_add t cut),
      )
  | inr below ↦
      let le_pow : 10 ^ suc i ≤ 10 ^ (cut + j) =
        pow-le-pow_right {n = 10} (omega arith) (ground arith) in
      inr (omega (arith, rw (pow-suc 10 i, ten_pow_add cut j) at le_pow))
]

regroup_scale : (c t u j : ℕ) → c * (t * u * j) ≡ c * t * u * j
regroup_scale c t u j = grind arith

-- A number of 28 digits ends below the first digit that is kept.
few-le-many : (c i u j q : ℕ) → c < 10 ^ 28 → 10 * i ≤ u * j → 10 ^ 27 ≤ q → c * i + i ≤ q * u * j
few-le-many c i u j q few scale many =
    let digits : suc c ≤ 10 ^ 28 = omega arith in
    rw (mul_assoc q u j)
      (omega (arith, mul-le-mul_right i digits, mul-le-mul_right (u * j) many, suc-mul c i))

module _ (n m k c i j : ℕ) (x : IsCut n m k) (few : c < 10 ^ 28) where
  open x use {cut, kept, value, many, near}

  kept-le : (t : ℕ) → n ≤ c * t * 10 ^ cut → kept ≤ c * t
  kept-le t h = elim near [
    | inl e ↦
        le_of_mul-le-mul_right (rw e (omega (arith, div-mul-le_self n (10 ^ cut), h)))
          (ten_pow_pos cut)
    | inr (e, p) ↦
        let q = n / 10 ^ cut in
        let more : q * 10 ^ cut < c * t * 10 ^ cut = omega (arith, mod-add-div' n (10 ^ cut)) in
        omega (arith, e, lt_of_mul-lt-mul_right (10 ^ cut) more)
  ]

  -- A number of at most 28 digits that is not above `n` is not above what `n` is cut to.
  below_cut : c * 10 ^ i ≤ n * 10 ^ j → c * 10 ^ i ≤ m * 10 ^ k * 10 ^ j
  below_cut h = elim (scale_split i cut j) [
    | inl (t, e) ↦
        let whole : c * 10 ^ t * 10 ^ cut ≤ n =
          le_of_mul-le-mul_right (rw (e, regroup_scale c (10 ^ t) (10 ^ cut) (10 ^ j)) at h)
            (ten_pow_pos j) in
        let digits = (le-div_iff_mul-le (ten_pow_pos cut)).1 whole in
        let all : c * 10 ^ t ≤ kept = ground arith in
        rw (e, value, regroup_scale c (10 ^ t) (10 ^ cut) (10 ^ j))
          (mul-le-mul_right (10 ^ j) (mul-le-mul_right (10 ^ cut) all))
    | inr scale ↦
        let all : 10 ^ 27 ≤ kept = ground arith in
        rw value (omega (arith, few-le-many c (10 ^ i) (10 ^ cut) (10 ^ j) kept few scale all))
  ]

  -- A number of at most 28 digits that is not below `n` is not below what `n` is cut to.
  above_cut : n * 10 ^ j ≤ c * 10 ^ i → m * 10 ^ k * 10 ^ j ≤ c * 10 ^ i
  above_cut h = elim (scale_split i cut j) [
    | inl (t, e) ↦
        let whole : n ≤ c * 10 ^ t * 10 ^ cut =
          le_of_mul-le-mul_right (rw (e, regroup_scale c (10 ^ t) (10 ^ cut) (10 ^ j)) at h)
            (ten_pow_pos j) in
        rw (e, value, regroup_scale c (10 ^ t) (10 ^ cut) (10 ^ j))
          (mul-le-mul_right (10 ^ j) (mul-le-mul_right (10 ^ cut) (kept-le (10 ^ t) whole)))
    | inr scale ↦ absurd (
        omega (
          arith,
          few-le-many c (10 ^ i) (10 ^ cut) (10 ^ j) (n / 10 ^ cut) few scale many,
          mul-le-mul_right (10 ^ j) (div-mul-le_self n (10 ^ cut)),
          ten_pow_pos i,
        ))
  ]

cut_scale :
    (n j : ℕ)
    → (round_half_even n).0 * 10 ^ (j + (round_half_even n).1)
      ≡ (round_half_even n).0 * 10 ^ (round_half_even n).1 * 10 ^ j
cut_scale n j = rw (ten_pow_add j (round_half_even n).1) (grind arith)

module _ (n c i j : ℕ) (few : c < 10 ^ 28) where
  round_below :
      c * 10 ^ i ≤ n * 10 ^ j
      → c * 10 ^ i ≤ (round_half_even n).0 * 10 ^ (j + (round_half_even n).1)
  round_below h = elim (round_half_even_lem n) [
    | inl same ↦ rw (same, add-zero j) h
    | inr x ↦ rw (cut_scale n j) (below_cut n _ _ c i j x few h)
  ]

  round_above :
      n * 10 ^ j ≤ c * 10 ^ i
      → (round_half_even n).0 * 10 ^ (j + (round_half_even n).1) ≤ c * 10 ^ i
  round_above h = elim (round_half_even_lem n) [
    | inl same ↦ rw (same, add-zero j) h
    | inr x ↦ rw (cut_scale n j) (above_cut n _ _ c i j x few h)
  ]

-- A number of at most 28 digits, which the context holds as it is.
abbrev pub IsExact : Decimal → Type 0
IsExact d = pos_part d.coeff + neg_part d.coeff < 10 ^ 28

-- A magnitude `n` at the scale `j`, cut to `m` at the scale `l`, stays on its side of `c` at the scale `i`.
abbrev Keeps : ℕ → ℕ → ℕ → ℕ → ℕ → ℕ → Type 0
Keeps c i n j m l = (c * i ≤ n * j → c * i ≤ m * l) × (n * j ≤ c * i → m * l ≤ c * i)

abbrev magnitude : ℤ → ℕ
magnitude z = pos_part z + neg_part z

neg_part-with_sign : (n m : ℕ) → neg_part (with_sign (negsuc n) m) ≡ m
neg_part-with_sign n zero = refl
neg_part-with_sign n (suc m) = refl

pos_part-with_sign : (n m : ℕ) → pos_part (with_sign (negsuc n) m) ≡ 0
pos_part-with_sign n zero = refl
pos_part-with_sign n (suc m) = refl

-- The two comparisons of a signed number with a cut one.
Keeps-order :
    (a z : ℤ) (m i j l : ℕ)
    → 0 < i
    → 0 < j
    → Keeps (magnitude a) i (magnitude z) j m l
    → let w = with_sign z m in
      (pos_part a * i + neg_part z * j ≤ pos_part z * j + neg_part a * i
        → pos_part a * i + neg_part w * l ≤ pos_part w * l + neg_part a * i)
      × (pos_part z * j + neg_part a * i ≤ pos_part a * i + neg_part z * j
          → pos_part w * l + neg_part a * i ≤ pos_part a * i + neg_part w * l)
Keeps-order (pos p) (pos n) m i j l pi pj keeps =
    (λ h. omega (arith, keeps.0 (omega arith)), λ h. omega (arith, keeps.1 (omega arith)))
Keeps-order (negsuc p) (pos n) m i j l pi pj keeps =
    (λ h. omega arith, λ h. absurd (omega (arith, suc-mul p i)))
Keeps-order (pos p) (negsuc n) m i j l pi pj keeps =
    rw (neg_part-with_sign n m, pos_part-with_sign n m)
      (λ h. absurd (omega (arith, suc-mul n j)), λ h. omega arith)
Keeps-order (negsuc p) (negsuc n) m i j l pi pj keeps =
    rw (neg_part-with_sign n m, pos_part-with_sign n m)
      (λ h. omega (arith, keeps.1 (omega arith)), λ h. omega (arith, keeps.0 (omega arith)))

-- The decimal whose magnitude is cut to `m * 10 ^ k`.
abbrev cut_to : Decimal → ℕ × ℕ → Decimal
cut_to d (m, k) = record { coeff = with_sign d.coeff m; exp = d.exp +ℤ pos k }

fix_lem : (d : Decimal) → fix d ≡ cut_to d (round_half_even (pos_part d.coeff + neg_part d.coeff))
unfolding fix
fix_lem d = refl

-- The same with the scales that a comparison with `r` brings the two numbers to.
module _ (r d : Decimal) (m k : ℕ) where
  abbrev scale_of : ℕ
  scale_of = gap r d - gap r (cut_to d (m, k))

  own_scale : gap r (cut_to d (m, k)) + scale_of ≡ gap r d
  own_scale = omega (arith, gap_lem, +ℤ_parts d.exp (pos k))

  cut_scales : gap (cut_to d (m, k)) r + scale_of ≡ gap d r + k
  cut_scales = omega (arith, gap_lem, +ℤ_parts d.exp (pos k))

  module _
      (keeps : Keeps
        (magnitude r.coeff)
        (10 ^ gap r d)
        (magnitude d.coeff)
        (10 ^ gap d r)
        m
        (10 ^ (gap d r + k))) where
    le-cut_to : le r d ≡ true → le r (cut_to d (m, k)) ≡ true
    le-cut_to h =
        le_of_scaled r (cut_to d (m, k)) {i = gap r d} {j = gap d r + k} scale_of own_scale
          cut_scales
          ((Keeps-order r.coeff d.coeff m _ _ _ (ten_pow_pos (gap r d)) (ten_pow_pos (gap d r))
              keeps).0
            (le_scaled r d {i = gap r d} {j = gap d r} 0 (omega arith) (omega arith) h))

    cut_to-le : le d r ≡ true → le (cut_to d (m, k)) r ≡ true
    cut_to-le h =
        le_of_scaled (cut_to d (m, k)) r {i = gap d r + k} {j = gap r d} scale_of cut_scales
          own_scale
          ((Keeps-order r.coeff d.coeff m _ _ _ (ten_pow_pos (gap r d)) (ten_pow_pos (gap d r))
              keeps).1
            (le_scaled d r {i = gap d r} {j = gap r d} 0 (omega arith) (omega arith) h))

-- Rounding keeps a number on its side of any number of at most 28 digits.
module _ (r d : Decimal) (exact : IsExact r) where
  Keeps-fix :
      let c = round_half_even (magnitude d.coeff) in
      Keeps
        (magnitude r.coeff)
        (10 ^ gap r d)
        (magnitude d.coeff)
        (10 ^ gap d r)
        c.0
        (10 ^ (gap d r + c.1))
  Keeps-fix = (
    round_below (magnitude d.coeff) (magnitude r.coeff) (gap r d) (gap d r) exact,
    round_above (magnitude d.coeff) (magnitude r.coeff) (gap r d) (gap d r) exact,
  )

  pub le-fix : le r d ≡ true → le r (fix d) ≡ true
  le-fix h = rw (fix_lem d) (le-cut_to r d _ _ Keeps-fix h)

  pub fix-le : le d r ≡ true → le (fix d) r ≡ true
  fix-le h = rw (fix_lem d) (cut_to-le r d _ _ Keeps-fix h)
