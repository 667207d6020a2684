-- ===== src/Prelude/Errors.antt =====
-- Python's exceptions as values: a call returns a value or raises one of these.
use Prim.Native.String.{String}
use mathlib.Core.Bool.{Bool, true, false}
use nexocrypto.Prelude.Tests.{if◌then◌else◌}
use mathlib.Core.Logic.{◌⊎◌, inl, inr}
use mathlib.Core.Path.{◌≡◌, refl, subst}

pub data Exception : Type 0 where
  zero_division : Exception
  value_error : Exception
  permission_error : String → Exception
  runtime_error index_error type_error : Exception

pub data Result {ℓ} (A : Type ℓ) : Type ℓ where
  ok : A → Result A
  raised : Exception → Result A

-- An exception ends the block that raises it. Wherever a call has returned, the rest computes.
module _ {ℓ κ} {A : Type ℓ} {B : Type κ} where
  infixl 5 ◌>>=◌
  abbrev pub ◌>>=◌ : Result A → (A → Result B) → Result B
  raised e >>= rest = raised e
  ok value >>= rest = rest value

  -- The value that the first call of a block gave, if the block has returned.
  pub >>=-eq-ok :
      (first : Result A) (rest : A → Result B) {last : B}
      → (first >>= rest) ≡ ok last
      → (value : A) × (first ≡ ok value) × (rest value ≡ ok last)
  >>=-eq-ok (raised e) rest returned = cc
  >>=-eq-ok (ok value) rest returned = (value, refl, returned)

-- The call returns a value.
abbrev pub Returns {ℓ} : {A : Type ℓ} → Result A → Type 0
Returns (ok a) = Unit
Returns (raised e) = ⊥

pub value_of_Returns {ℓ} : {A : Type ℓ} (m : Result A) → Returns m → (a : A) × (m ≡ ok a)
value_of_Returns (ok a) h = (a, refl)
value_of_Returns (raised e) h = absurd h

pub Returns-eq-ok {ℓ} : {A : Type ℓ} (m : Result A) {a : A} → m ≡ ok a → Returns m
Returns-eq-ok (ok a) h = tt
Returns-eq-ok (raised e) h = cc

pub ok_injective {ℓ} : {A : Type ℓ} {a b : A} → ok a ≡ ok b → a ≡ b
ok_injective e = cc

pub Returns-bind {ℓ κ} :
    {A : Type ℓ} {B : Type κ} (m : Result A) (f : A → Result B)
    → Returns m
    → ((a : A) → Returns (f a))
    → Returns (m >>= f)
Returns-bind (ok a) f h k = k a
Returns-bind (raised e) f h k = absurd h

-- A branch that raises nothing, beside one that returns.
pub Returns-if {ℓ} :
    {A : Type ℓ} (b : Bool) (m : Result A) (a : A) → Returns m → Returns (if b then m else ok a)
Returns-if true m a h = h
Returns-if false m a h = tt

-- What a call gives, if it gives a value.
abbrev pub Gives {ℓ} : {A : Type ℓ} → (A → Type 0) → Result A → Type 0
Gives P (ok a) = P a
Gives P (raised e) = Unit

-- A block gives what its rest gives on the value of its first call.
pub Gives-bind {ℓ κ} :
    {A : Type ℓ} {B : Type κ} (P : B → Type 0) (m : Result A) (f : A → Result B)
    → ((a : A) → m ≡ ok a → Gives P (f a))
    → Gives P (m >>= f)
Gives-bind P (ok a) f h = h a refl
Gives-bind P (raised e) f h = tt

pub value_of_Gives {ℓ} :
    {A : Type ℓ} (P : A → Type 0) (m : Result A) {a : A} → Gives P m → m ≡ ok a → P a
value_of_Gives P (ok a) h e = subst P (ok_injective e) h
value_of_Gives P (raised x) h e = cc

pub Result-cases {ℓ} :
    {A : Type ℓ} (m : Result A) → ((a : A) × (m ≡ ok a)) ⊎ ((e : Exception) × (m ≡ raised e))
Result-cases (ok a) = inl (a, refl)
Result-cases (raised e) = inr (e, refl)
