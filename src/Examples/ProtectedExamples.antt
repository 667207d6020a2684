-- ===== src/Examples/ProtectedExamples.antt =====
-- Examples for the protected profit.
use nexocrypto.Decimal.{Decimal, max, of_ℕ, le, lt, mul, sub}
use nexocrypto.Examples.Data.{value_or}
use nexocrypto.Risk.Protected.{ProtectedProfitState, advance_protected_floor, raise_floor}
use nexocrypto.Risk.Protected.Ratchet.{IsRatcheted, advance_all, advance_all-IsRatcheted}
use nexocrypto.Risk.Protected.Ceiling.{IsCapped, advance_all-IsCapped}
use nexocrypto.Prelude.{List, none, ◌∷◌, [], negsuc, pos, refl, true, ◌≡◌, arith}

-- Net profits of 100, 40 and 120 with a giveback of 30 percent.
start : ProtectedProfitState
start = record { peak_gain_net = of_ℕ 0; protected_floor_net = of_ℕ 0 }

abbrev giveback : Decimal
giveback = record { coeff = pos 30; exp = negsuc 1 }

profits : List Decimal
profits = of_ℕ 100 ∷ of_ℕ 40 ∷ of_ℕ 120 ∷ []

ratcheted : ProtectedProfitState
unfolding start profits advance_all advance_protected_floor raise_floor max lt le sub mul
ratcheted = value_or start (advance_all giveback profits start)

-- The floor ends at 84, 70 percent of the peak.
ratcheted_floor : ratcheted.protected_floor_net ≡ record { coeff = pos 8400; exp = negsuc 1 }
unfolding ratcheted
ratcheted_floor = refl

advance_all-IsRatcheted_example : IsRatcheted profits start ratcheted
unfolding ratcheted
advance_all-IsRatcheted_example = advance_all-IsRatcheted giveback profits start ratcheted refl

-- A position that was never in profit: its floor stands above its peak.
negative_peak : ProtectedProfitState
unfolding ratcheted
negative_peak = value_or start (
    advance_protected_floor (record { coeff = negsuc 9; exp = pos 0 })
      (record { coeff = negsuc 9; exp = pos 0 }) none giveback)

floor_above_peak : lt negative_peak.peak_gain_net negative_peak.protected_floor_net ≡ true
unfolding negative_peak
floor_above_peak = refl

advance_all-IsCapped_example : IsCapped ratcheted
unfolding ratcheted start le
advance_all-IsCapped_example =
    advance_all-IsCapped giveback profits start ratcheted
      (omega arith, (omega arith, (omega arith, tt))) refl
      (record { below = refl; nonneg = refl; exact = omega arith })
