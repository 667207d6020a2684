-- ===== src/Decimal/Order.antt =====
-- The comparison of decimals is a total order of their values: reflexive, transitive, total, and
-- `lt` is the negation of `le` the other way round.
use nexocrypto.Prelude.{
  ◌>>=◌, ℕ, zero, suc, ◌+◌, ◌-◌, ◌*◌, ◌^◌, ◌≤◌, ◌<◌, ◌≡◌, sym, ap, ◌∙◌, ◌⊎◌, true, not, false,
  arith, leb→le, le→leb, pos_part, neg_part,
}
use mathlib.Core.Path.{◌≡⟨◌⟩◌, ◌∎}
use Prim.Native.Nat.{max as max_ℕ}
use native.Mathlib.Nat.{pow-suc, mul_assoc, one-le-pow, mul-le-mul_right, le_of_mul-le-mul_right}
use nexocrypto.Decimal.{Decimal, gap, le, lt, min, max}

pub ten_pow_add : (m n : ℕ) → 10 ^ (m + n) ≡ 10 ^ m * 10 ^ n
ten_pow_add m zero = ap (λ (k : ℕ). 10 ^ k) {x = m + 0} {y = m} (omega arith) ∙ omega arith
ten_pow_add m (suc n) =
    10 ^ (m + suc n)
    ≡⟨ ap (λ (k : ℕ). 10 ^ k) {x = m + suc n} {y = suc (m + n)} (omega arith) ⟩ 10 ^ suc (m + n)
    ≡⟨ pow-suc 10 (m + n) ⟩ 10 ^ (m + n) * 10
    ≡⟨ omega (arith, ten_pow_add m n) ⟩ 10 ^ m * 10 ^ n * 10
    ≡⟨ mul_assoc (10 ^ m) (10 ^ n) 10 ⟩ 10 ^ m * (10 ^ n * 10)
    ≡⟨ ap (λ (k : ℕ). 10 ^ m * k) (sym (pow-suc 10 n)) ⟩ 10 ^ m * 10 ^ suc n ∎

pub ten_pow_pos : (n : ℕ) → 0 < 10 ^ n
ten_pow_pos n = one-le-pow n 10 (omega arith)

pub le_refl : (a : Decimal) → le a a ≡ true
unfolding le
le_refl a = ground arith

pub lt-eq-not-le : (a b : Decimal) → lt a b ≡ not (le b a)
unfolding lt le
lt-eq-not-le a b = ground arith

pub le_total : (a b : Decimal) → (le a b ≡ true) ⊎ (le b a ≡ true)
unfolding le
le_total a b = ground arith

-- A comparison of sums is unchanged when all terms are multiplied by one positive number.
regroup : (p n i j t : ℕ) → p * (i * t) + n * (j * t) ≡ (p * i + n * j) * t
regroup p n i j t = grind arith

-- Any common scale decides the order.
module _ (a b : Decimal) {i j : ℕ} (s : ℕ) (hi : gap a b + s ≡ i) (hj : gap b a + s ≡ j) where
  abbrev pub Scaled : Type 0
  Scaled =
      pos_part a.coeff * 10 ^ i + neg_part b.coeff * 10 ^ j
      ≤ pos_part b.coeff * 10 ^ j + neg_part a.coeff * 10 ^ i

  pub le_scaled : le a b ≡ true → Scaled
  unfolding le
  le_scaled h =
      rw (← hi, ← hj, ten_pow_add (gap a b) s, ten_pow_add (gap b a) s)
        (simp regroup (mul-le-mul_right (10 ^ s) (leb→le _ _ h)))

  pub le_of_scaled : Scaled → le a b ≡ true
  unfolding le
  le_of_scaled h = le→leb _ _ (
      le_of_mul-le-mul_right
        (simp regroup at (rw (← hi, ← hj, ten_pow_add (gap a b) s, ten_pow_add (gap b a) s) at h))
        (ten_pow_pos s))

pub gap_lem :
    (a b : Decimal)
    → gap a b ≡ (pos_part a.exp + neg_part b.exp) - (neg_part a.exp + pos_part b.exp)
unfolding gap
gap_lem a b = ground arith

pub ruleset gaps = (arith, gap_lem)

pub le_trans : (a b c : Decimal) → le a b ≡ true → le b c ≡ true → le a c ≡ true
le_trans a b c h k =
    let i : ℕ = max_ℕ (gap a b) (gap a c) in
    let j : ℕ = max_ℕ (gap b a) (gap b c) in
    let l : ℕ = max_ℕ (gap c a) (gap c b) in
    le_of_scaled a c {i = i} {j = l} (i - gap a c) (omega gaps) (omega gaps) (
      omega (
        arith,
        le_scaled a b {i = i} {j = j} (i - gap a b) (omega gaps) (omega gaps) h,
        le_scaled b c {i = j} {j = l} (j - gap b c) (omega gaps) (omega gaps) k,
      ))

-- The larger of two is above both, and is one of them.
pub le-max_left : (a b : Decimal) → le a (max a b) ≡ true
unfolding max
le-max_left a b = ground (arith, le_refl a, le_total a b, lt-eq-not-le a b)

pub le-max_right : (a b : Decimal) → le b (max a b) ≡ true
unfolding max
le-max_right a b = ground (arith, le_refl b, le_total a b, lt-eq-not-le a b)

pub max-le : (a b c : Decimal) → le a c ≡ true → le b c ≡ true → le (max a b) c ≡ true
unfolding max
max-le a b c h k = ground arith

pub min-le_left : (a b : Decimal) → le (min a b) a ≡ true
unfolding min
min-le_left a b = ground (arith, le_refl a, le_total a b, lt-eq-not-le b a)

pub min-le_right : (a b : Decimal) → le (min a b) b ≡ true
unfolding min
min-le_right a b = ground (arith, le_refl b, le_total a b, lt-eq-not-le b a)

pub le_of_not_lt : (a b : Decimal) → lt a b ≡ false → le b a ≡ true
le_of_not_lt a b h = ground (arith, lt-eq-not-le a b)

pub lt_of_not_le : (a b : Decimal) → le a b ≡ false → lt b a ≡ true
lt_of_not_le a b h = ground (arith, lt-eq-not-le b a)
