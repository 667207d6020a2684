-- ===== src/Decimal.antt =====
-- Python's `decimal.Decimal`, as the program uses it: finite numbers coeff * 10 ^ exp under the
-- default context, precision 28 with ROUND_HALF_EVEN. Comparison is exact; every arithmetic result
-- is rounded. The exponent is unbounded: the context's Emin and Emax (one million) are not reached.
-- A value is used as a number only, so which of two equal representations comes out (1.0 or 1.00)
-- is not followed.
pub mod Order
pub mod Sign
pub mod Rounding
pub mod Bounds
use nexocrypto.Prelude.{
  ℕ, zero, suc, ◌+◌, ◌-◌, ◌*◌, ◌/◌, ◌%◌, ◌^◌, Bool, true, false, ◌&&◌, ◌||◌, ltb, leb, ◌==◌,
  if◌then◌else◌, ℤ, pos, negsuc, pos_part, neg_part, ◌+ℤ◌, ◌-ℤ◌, ◌*ℤ◌, Result, ok, raised,
  zero_division, ◌≡◌, refl,
}

pub record Decimal : Type 0 where
  pub coeff : ℤ
  pub exp : ℤ

-- The context's `prec`.
abbrev prec : ℕ
prec = 28

-- How many decimal digits a number has; the number itself is fuel enough.
digits_from : ℕ → ℕ → ℕ
digits_from zero n = 0
digits_from (suc f) n = elim (n == 0) [ true ↦ 0 | false ↦ suc (digits_from f (n / 10)) ]

num_digits : ℕ → ℕ
unfolding digits_from
num_digits n = digits_from n n

-- `q` and the digits `r` cut off after it, of a number cut at `unit`: a half goes to the even side.
round_up : ℕ → ℕ → ℕ → Bool
round_up q r unit = ltb unit (2 * r) || (2 * r == unit && q % 2 == 1)

-- A number cut to `prec` digits, and how many places were cut; a carry may cut one more.
pub round_half_even : ℕ → ℕ × ℕ
unfolding num_digits round_up
round_half_even n =
    let k = num_digits n - prec in
    let unit = 10 ^ k in
    let q = n / unit in
    let q' = if round_up q (n % unit) unit then q + 1 else q in
    if k == 0 then (n, 0) else if ltb prec (num_digits q') then (q' / 10, k + 1) else (q', k)

-- n with a minus sign.
abbrev negative : ℕ → ℤ
negative zero = pos 0
negative (suc n) = negsuc n

abbrev with_sign : ℤ → ℕ → ℤ
with_sign (pos _) n = pos n
with_sign (negsuc _) n = negative n

-- `_fix`: a result rounded to the context.
unfoldable pub fix : Decimal → Decimal
unfolding round_half_even
fix d =
    let (n, k) = round_half_even (pos_part d.coeff + neg_part d.coeff) in
    record { coeff = with_sign d.coeff n; exp = d.exp +ℤ pos k }

-- How far the exponent of `a` stands above that of `b`, 0 if it does not.
unfoldable pub gap : Decimal → Decimal → ℕ
unfolding ◌-ℤ◌
gap a b = pos_part (a.exp -ℤ b.exp)

-- The coefficient of `a` at the smaller of the two exponents.
unfoldable pub aligned : Decimal → Decimal → ℤ
unfolding gap ◌*ℤ◌
aligned a b = a.coeff *ℤ pos (10 ^ gap a b)

unfoldable pub of_ℤ : ℤ → Decimal
of_ℤ z = record { coeff = z; exp = pos 0 }

abbrev pub of_ℕ : ℕ → Decimal
of_ℕ n = record { coeff = pos n; exp = pos 0 }

-- a <= b
unfoldable pub le : Decimal → Decimal → Bool
unfolding gap
le a b =
    let i = 10 ^ gap a b in
    let j = 10 ^ gap b a in
    leb (pos_part a.coeff * i + neg_part b.coeff * j) (pos_part b.coeff * j + neg_part a.coeff * i)

-- a < b
unfoldable pub lt : Decimal → Decimal → Bool
unfolding gap
lt a b =
    let i = 10 ^ gap a b in
    let j = 10 ^ gap b a in
    ltb (pos_part a.coeff * i + neg_part b.coeff * j) (pos_part b.coeff * j + neg_part a.coeff * i)

-- a == 0, and bool(a) negated
unfoldable pub is_zero : Decimal → Bool
is_zero a = pos_part a.coeff + neg_part a.coeff == 0

-- `min(a, b)` and `max(a, b)` of two arguments return the first unless the second is better.
unfoldable pub min : Decimal → Decimal → Decimal
min a b = if lt b a then b else a

unfoldable pub max : Decimal → Decimal → Decimal
max a b = if lt a b then b else a

unfoldable pub add : Decimal → Decimal → Decimal
unfolding aligned fix ◌+ℤ◌
add a b =
    fix (record {
      coeff = aligned a b +ℤ aligned b a;
      exp = if leb (gap a b) 0 then a.exp else b.exp;
    })

unfoldable pub neg : Decimal → Decimal
unfolding fix ◌-ℤ◌
neg a = fix (record { coeff = pos 0 -ℤ a.coeff; exp = a.exp })

unfoldable pub sub : Decimal → Decimal → Decimal
unfolding aligned fix ◌-ℤ◌
sub a b =
    fix (record {
      coeff = aligned a b -ℤ aligned b a;
      exp = if leb (gap a b) 0 then a.exp else b.exp;
    })

unfoldable pub mul : Decimal → Decimal → Decimal
unfolding fix ◌*ℤ◌ ◌+ℤ◌
mul a b = fix (record { coeff = a.coeff *ℤ b.coeff; exp = a.exp +ℤ b.exp })

-- `abs(a)`
unfoldable pub abs : Decimal → Decimal
unfolding fix
abs a = fix (record { coeff = pos (pos_part a.coeff + neg_part a.coeff); exp = a.exp })

-- The quotient of two magnitudes to `prec` digits and one to spare; a remainder makes a last digit
-- 0 or 5 into 1 or 6, so that the rounding sees it.
sticky_quotient : ℕ → ℕ → ℕ
sticky_quotient n d = let q = n / d in if ltb 0 (n % d) && q % 5 == 0 then q + 1 else q

-- a / b for b other than 0.
unfoldable pub quotient : Decimal → Decimal → Decimal
unfolding sticky_quotient fix num_digits ◌-ℤ◌ ◌+ℤ◌ ◌*ℤ◌
quotient a b =
    let n = pos_part a.coeff + neg_part a.coeff in
    let d = pos_part b.coeff + neg_part b.coeff in
    let up = num_digits d + prec + 1 - num_digits n in
    let down = num_digits n - (num_digits d + prec + 1) in
    let q = sticky_quotient (n * 10 ^ up) (d * 10 ^ down) in
    let sign = with_sign a.coeff 1 *ℤ with_sign b.coeff 1 in
    fix (record { coeff = with_sign sign q; exp = a.exp -ℤ b.exp -ℤ pos up +ℤ pos down })

-- a / b raises `DivisionByZero`, and `InvalidOperation` for 0 / 0; both are ArithmeticErrors.
unfoldable pub div : Decimal → Decimal → Result Decimal
unfolding is_zero
div a b = if is_zero b then raised zero_division else ok (quotient a b)

-- `int(a)`: truncated toward 0.
unfoldable pub to_ℤ : Decimal → ℤ
unfolding ◌*ℤ◌
to_ℤ a =
    let n = pos_part a.coeff + neg_part a.coeff in
    with_sign a.coeff (n * 10 ^ pos_part a.exp / 10 ^ neg_part a.exp)

third : Decimal
unfolding quotient
third = quotient (of_ℕ 2) (of_ℕ 3)

-- 2 / 3 = 0.6666666666666666666666666667
third_digits : third ≡ record { coeff = pos 6666666666666666666666666667; exp = negsuc 27 }
unfolding third
third_digits = refl
