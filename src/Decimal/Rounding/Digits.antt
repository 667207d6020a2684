-- ===== src/Decimal/Rounding/Digits.antt =====
-- `_round` of Python's `decimal`: how a number with too many digits is cut and carried.
use native.Mathlib.Nat.{div-lt_iff_lt-mul, pow-suc, pow-le-pow_right, le-div_iff_mul-le}
use nexocrypto.Decimal.{digits_from, num_digits, round_half_even, round_up}
use nexocrypto.Prelude.{
  false, if◌then◌else◌, ltb, true, ◌+◌, ◌/◌, ◌%◌, ◌-◌, ◌⊎◌, Bool-cases, arith, inl, inr, refl, suc,
  zero, ℕ, ◌*◌, ◌/◌, ◌<◌, ◌==◌, ◌^◌, ◌≡◌, ◌≤◌,
}
use nexocrypto.Decimal.Order.{ten_pow_add, ten_pow_pos}

digits_from-zero : (f : ℕ) → digits_from f 0 ≡ 0
unfolding digits_from
digits_from-zero zero = refl
digits_from-zero (suc f) = refl

digits_from-suc : (f n : ℕ) → digits_from (suc f) (suc n) ≡ suc (digits_from f (suc n / 10))
unfolding digits_from
digits_from-suc f n = ground arith

digits_from_bounds :
    (f n : ℕ) → n ≤ f → (n < 10 ^ digits_from f n) × (0 < n → 10 ^ digits_from f n ≤ 10 * n)
unfolding digits_from
digits_from_bounds zero n h = (omega arith, λ p. absurd (omega arith))
digits_from_bounds (suc f) zero h = (omega arith, λ p. absurd (omega arith))
digits_from_bounds (suc f) (suc n) h =
    let (below, above) = digits_from_bounds f (suc n / 10) (omega arith) in
    rw (digits_from-suc f n, pow-suc 10 (digits_from f (suc n / 10)))
      (
        omega (arith, below),
        λ _. elim (Bool-cases (suc n / 10 == 0)) [
          | inl small ↦
              let e : suc n / 10 ≡ 0 = ground arith in rw (e, digits_from-zero f) (omega arith)
          | inr large ↦ omega (arith, above (ground arith))
        ],
      )

num_digits_bounds : (n : ℕ) → (n < 10 ^ num_digits n) × (0 < n → 10 ^ num_digits n ≤ 10 * n)
unfolding num_digits
num_digits_bounds n = digits_from_bounds n n (omega arith)

-- What a cut at `10 ^ cut` makes of `n`: the digits before the cut, or one more if any follow it.
pub record IsCut (n m k : ℕ) : Type 0 where
  pub cut : ℕ
  pub kept : ℕ
  pub value : m * 10 ^ k ≡ kept * 10 ^ cut
  pub many : 10 ^ 27 ≤ n / 10 ^ cut
  pub near : (kept ≡ n / 10 ^ cut) ⊎ ((kept ≡ n / 10 ^ cut + 1) × (0 < n % 10 ^ cut))

round_up_pos : (q r unit : ℕ) → 0 < unit → round_up q r unit ≡ true → 0 < r
unfolding round_up
round_up_pos q r unit p h = ground arith

num_digits-zero : (n : ℕ) → n ≡ 0 → num_digits n ≡ 0
unfolding num_digits
num_digits-zero n h = rw h (digits_from-zero 0)

many_digits : (n k : ℕ) → num_digits n ≡ 28 + suc k → 10 ^ 27 ≤ n / 10 ^ suc k
many_digits n k e = elim (Bool-cases (n == 0)) [
  | inl z ↦ absurd (omega (arith, e, num_digits-zero n (ground arith)))
  | inr p ↦
      (le-div_iff_mul-le (ten_pow_pos (suc k))).1
        (omega (arith, rw (e, ten_pow_add 28 (suc k)) at ((num_digits_bounds n).1 (ground arith))))
]

few_digits : (n k : ℕ) → num_digits n ≡ 28 + suc k → n / 10 ^ suc k < 10 ^ 28
few_digits n k e =
    (div-lt_iff_lt-mul (ten_pow_pos (suc k))).1
      (omega (arith, rw (e, ten_pow_add 28 (suc k)) at ((num_digits_bounds n).0)))

-- A number with more than 28 digits that is at most 10 ^ 28 is 10 ^ 28.
carried : (q : ℕ) → q ≤ 10 ^ 28 → ltb 28 (num_digits q) ≡ true → q ≡ 10 ^ 28
carried q small more = elim (Bool-cases (q == 0)) [
  | inl z ↦ absurd (let e = num_digits-zero q (ground arith) in ground arith)
  | inr p ↦
      let shown : 29 ≤ num_digits q = ground arith in
      omega (
        arith,
        (num_digits_bounds q).1 (ground arith),
        pow-le-pow_right {n = 10} (omega arith) shown,
      )
]

round-IsCut :
    (n k kept : ℕ)
    → num_digits n ≡ 28 + suc k
    → (kept ≡ n / 10 ^ suc k) ⊎ ((kept ≡ n / 10 ^ suc k + 1) × (0 < n % 10 ^ suc k))
    → let r : ℕ × ℕ = if ltb 28 (num_digits kept) then (kept / 10, suc k + 1) else (kept, suc k) in
      IsCut n r.0 r.1
round-IsCut n k kept e near = elim (Bool-cases (ltb 28 (num_digits kept))) [
  | inl more ↦
      let whole : kept ≡ 10 ^ 28 = carried kept (ground (arith, few_digits n k e)) more in
      rw more (record {
        cut = suc k;
        kept = kept;
        value = rw (whole, ten_pow_add (suc k) 1) (omega arith);
        many = many_digits n k e;
        near = near;
      })
  | inr fits ↦
      rw fits
        (record { cut = suc k; kept = kept; value = refl; many = many_digits n k e; near = near })
]

round_long :
    (n k : ℕ) → num_digits n ≡ 28 + suc k → IsCut n (round_half_even n).0 (round_half_even n).1
unfolding round_half_even
round_long n k e =
    let cut : num_digits n - 28 ≡ suc k = omega (arith, e) in
    let not_zero : (suc k == 0) ≡ false = ground arith in
    let q = n / 10 ^ suc k in
    let r = n % 10 ^ suc k in
    elim (Bool-cases (round_up q r (10 ^ suc k))) [
      | inl up ↦
          rw (cut, up)
            (rw not_zero (
              round-IsCut n k (q + 1) e
                (inr (refl, round_up_pos q r (10 ^ suc k) (ten_pow_pos (suc k)) up))))
      | inr down ↦ rw (cut, down) (rw not_zero (round-IsCut n k q e (inl refl)))
    ]

pub round_half_even_lem :
    (n : ℕ) → (round_half_even n ≡ (n, 0)) ⊎ IsCut n (round_half_even n).0 (round_half_even n).1
unfolding round_half_even
round_half_even_lem n = elim (Bool-cases (num_digits n - 28 == 0)) [
  | inl fits ↦ inl (rw fits refl)
  | inr over ↦ inr (round_long n (num_digits n - 29) (ground arith))
]
