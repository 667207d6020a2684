-- ===== src/Risk/Protected/Ceiling.antt =====
-- The protected floor stays at or below the peak, for a peak that is not negative.
use nexocrypto.Risk.Protected.{ProtectedProfitState, advance_protected_floor, raise_floor}
use nexocrypto.Risk.Protected.Ratchet.{advance_all}
use nexocrypto.Prelude.{
  >>=-eq-ok, Bool-cases, List, [], arith, false, inl, inr, ok, ok_injective, some, true, ◌||◌, ◌∷◌,
  ◌≡◌,
}
use nexocrypto.Decimal.Sign.{IsNonneg}
use nexocrypto.Decimal.{Decimal, le, lt, max, mul, of_ℕ, sub}
use nexocrypto.Decimal.Order.{le_total, le_trans, le-max_left, max-le}
use mathlib.Core.Path.{subst}
use nexocrypto.Decimal.Rounding.{IsExact}
use nexocrypto.Decimal.Bounds.{mul-le, sub-le}

-- A floor that is not above a peak, and a peak of at most 28 digits that is not negative.
pub record IsCapped (s : ProtectedProfitState) : Type 0 where
  pub below : le s.protected_floor_net s.peak_gain_net ≡ true
  pub nonneg : IsNonneg s.peak_gain_net
  pub exact : IsExact s.peak_gain_net

abbrev pub AllExact : List Decimal → Type 0
AllExact [] = Unit
AllExact (d ∷ ds) = IsExact d × AllExact ds

max-IsExact : (a b : Decimal) → IsExact a → IsExact b → IsExact (max a b)
unfolding max
max-IsExact a b h k = elim (Bool-cases (lt a b)) [ inl e ↦ rw e k | inr e ↦ rw e h ]

-- The share of a peak that is protected.
protected_share :
    (peak giveback : Decimal)
    → IsNonneg peak
    → IsExact peak
    → le giveback (of_ℕ 0) ≡ false
    → le (mul peak (sub (of_ℕ 1) giveback)) peak ≡ true
protected_share peak giveback nonneg exact lo =
    mul-le peak (sub (of_ℕ 1) giveback) nonneg
      (sub-le (of_ℕ 1) giveback (ground (arith, le_total giveback (of_ℕ 0))) (omega arith)) exact

raised_cap :
    (pnl giveback : Decimal) (s : ProtectedProfitState)
    → IsExact pnl
    → le giveback (of_ℕ 0) ≡ false
    → IsCapped s
    → IsCapped (record {
      peak_gain_net = max s.peak_gain_net pnl;
      protected_floor_net =
          max s.protected_floor_net (mul (max s.peak_gain_net pnl) (sub (of_ℕ 1) giveback));
    })
raised_cap pnl giveback s exact lo capped =
    let peak = max s.peak_gain_net pnl in
    let kept = le-max_left s.peak_gain_net pnl in
    let nonneg = le_trans (of_ℕ 0) s.peak_gain_net peak capped.nonneg kept in
    let exact_peak = max-IsExact s.peak_gain_net pnl capped.exact exact in
    record {
      below =
          max-le s.protected_floor_net (mul peak (sub (of_ℕ 1) giveback)) peak
            (le_trans s.protected_floor_net s.peak_gain_net peak capped.below kept)
            (protected_share peak giveback nonneg exact_peak lo);
      nonneg = nonneg;
      exact = exact_peak;
    }

advance-IsCapped :
    (pnl giveback : Decimal) (s t : ProtectedProfitState)
    → IsExact pnl
    → advance_protected_floor pnl s.peak_gain_net (some s.protected_floor_net) giveback ≡ ok t
    → IsCapped s
    → IsCapped t
unfolding advance_protected_floor raise_floor
advance-IsCapped pnl giveback s t exact e capped =
    elim (Bool-cases (le giveback (of_ℕ 0) || lt (of_ℕ 1) giveback)) [
      | inl bad ↦ ground arith
      | inr good ↦
          subst IsCapped (ok_injective (ground arith))
            (raised_cap pnl giveback s exact (ground arith) capped)
    ]

-- Along any run of updates that returns, with net profits of at most 28 digits, a floor that is not above
-- a peak that is not negative stays so: what is protected is never more than was reached.
pub advance_all-IsCapped :
    (giveback : Decimal) (pnls : List Decimal) (s t : ProtectedProfitState)
    → AllExact pnls
    → advance_all giveback pnls s ≡ ok t
    → IsCapped s
    → IsCapped t
unfolding advance_all
advance_all-IsCapped giveback [] s t exact e capped = subst IsCapped (ok_injective e) capped
advance_all-IsCapped giveback (pnl ∷ pnls) s t exact e capped =
    let (u, first, rest) =
      >>=-eq-ok (advance_protected_floor pnl s.peak_gain_net (some s.protected_floor_net) giveback)
        (advance_all giveback pnls) e in
    advance_all-IsCapped giveback pnls u t exact.1 rest
      (advance-IsCapped pnl giveback s u exact.0 first capped)
