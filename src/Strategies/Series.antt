-- ===== src/Strategies/Series.antt =====
-- strategy/indicators.py: Python's sums, indexing and lists of optional values, as the indicators use them.
use nexocrypto.Prelude.{
  ℕ, zero, suc, List, [], ◌∷◌, Option, none, some, map, ◌++◌, Result, ok, raised, index_error,
  replicate, get_elem?,
}
use nexocrypto.Decimal.{Decimal, add, of_ℕ}

-- An indicator's values, one for each candle; `none` in the warm-up.
abbrev pub Series : Type 0
Series = List (Option Decimal)

-- `[None] * n`
abbrev pub nones : ℕ → Series
nones n = replicate n none

unfoldable pub sum_from : Decimal → List Decimal → Decimal
sum_from total [] = total
sum_from total (d ∷ ds) = sum_from (add total d) ds

-- `sum(ds, start=Decimal(0))`
unfoldable pub sum : List Decimal → Decimal
unfolding sum_from
sum ds = sum_from (of_ℕ 0) ds

-- `xs[i]` for an index that is not negative.
unfoldable pub at {ℓ} : {A : Type ℓ} → List A → ℕ → Result A
at xs i = elim (get_elem? xs i) [ none ↦ raised index_error | some x ↦ ok x ]

-- The values written one after the other into a list of `n` times `None`; those past its end are dropped.
unfoldable pub written : ℕ → List Decimal → Series
written zero ds = []
written (suc n) [] = none ∷ written n []
written (suc n) (d ∷ ds) = some d ∷ written n ds

-- The values of a loop that carries `prev` and appends every new value to its output.
unfoldable pub scan {ℓ} : {A : Type ℓ} → (Decimal → A → Decimal) → Decimal → List A → List Decimal
scan step prev [] = []
scan step prev (x ∷ xs) = let cur = step prev x in cur ∷ scan step cur xs

-- A warm-up without values, and the values after it.
abbrev pub after_warm_up : ℕ → List Decimal → Series
after_warm_up n values = nones n ++ map some values
