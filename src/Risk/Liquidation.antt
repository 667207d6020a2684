-- ===== src/Risk/Liquidation.antt =====
-- services/engine/src/nexocrypto_engine/risk/liquidation.py: the liquidation price of an isolated
-- margin position, and the gate on its distance.
pub mod Distance
use nexocrypto.Prelude.{
  Bool, false, ◌||◌, Option, none, some, if◌then◌else◌, Result, ok, ◌>>=◌, pos, negsuc,
}
use nexocrypto.Decimal.{Decimal, le, lt, of_ℕ, add, sub, mul, abs, div}
use nexocrypto.Shared.{Side, long, short}

-- Decimal("0.005")
abbrev pub default_maintenance_margin_rate : Decimal
default_maintenance_margin_rate = record { coeff = pos 5; exp = negsuc 2 }

abbrev bps : Decimal
bps = of_ℕ 10000

unfoldable pub liquidation_price : Side → Decimal → Decimal → Decimal → Result (Option Decimal)
liquidation_price side entry leverage rate =
    if le entry (of_ℕ 0) || le leverage (of_ℕ 0) || lt rate (of_ℕ 0) then ok none else (do
      inv_lev ← div (of_ℕ 1) leverage
      ok (
          some (
            mul entry (elim side [
              | long ↦ add (sub (of_ℕ 1) inv_lev) rate
              | short ↦ sub (add (of_ℕ 1) inv_lev) rate
            ]))))

unfoldable pub liquidation_distance_bps : Decimal → Option Decimal → Result (Option Decimal)
liquidation_distance_bps entry none = ok none
liquidation_distance_bps entry (some liq) =
    if le entry (of_ℕ 0)
    then ok none
    else (do raw ← div (abs (sub entry liq)) entry; ok (some (mul raw bps)))

-- The last step of `passes_min_distance`: an unknown price or distance does not pass.
unfoldable pub judge_distance :
    Decimal → Option Decimal → Option Decimal → Bool × Option Decimal × Option Decimal
judge_distance min_bps none dist = (false, none, dist)
judge_distance min_bps (some liq) none = (false, some liq, none)
judge_distance min_bps (some liq) (some d) = (le min_bps d, some liq, some d)

unfoldable pub passes_min_distance :
    Side → Decimal → Decimal → Decimal → Decimal → Result (Bool × Option Decimal × Option Decimal)
passes_min_distance side entry leverage min_distance_bps rate = do
  liq ← liquidation_price side entry leverage rate
  dist ← liquidation_distance_bps entry liq
  ok (judge_distance min_distance_bps liq dist)
