-- ===== src/Risk/Liquidation/Distance.antt =====
-- What a passed liquidation gate of risk/liquidation.py has measured, and that it never raises.
use nexocrypto.Prelude.{◌≡◌, true, false, Option, none, some, arith, ok, Returns, value_of_Returns}
use nexocrypto.Decimal.{Decimal, le, of_ℕ, add, sub, mul, abs, quotient}
use nexocrypto.Decimal.Sign.{div_of_not_le}
use nexocrypto.Shared.{Side, long, short}
use nexocrypto.Risk.Liquidation.{
  liquidation_price, liquidation_distance_bps, judge_distance, passes_min_distance,
}

-- The liquidation price of an isolated position.
abbrev pub liq_price : Side → Decimal → Decimal → Decimal → Decimal
liq_price long entry lev rate = mul entry (add (sub (of_ℕ 1) (quotient (of_ℕ 1) lev)) rate)
liq_price short entry lev rate = mul entry (sub (add (of_ℕ 1) (quotient (of_ℕ 1) lev)) rate)

-- Its distance from the entry in basis points of the entry.
abbrev pub distance_bps : Decimal → Decimal → Decimal
distance_bps entry liq = mul (quotient (abs (sub entry liq)) entry) (of_ℕ 10000)

liquidation_price_total :
    (side : Side) (entry lev rate : Decimal) → Returns (liquidation_price side entry lev rate)
unfolding liquidation_price
liquidation_price_total side entry lev rate = ground (arith, div_of_not_le (of_ℕ 1) lev)

liquidation_distance_total :
    (entry : Decimal) (liq : Option Decimal) → Returns (liquidation_distance_bps entry liq)
unfolding liquidation_distance_bps
liquidation_distance_total entry none = tt
liquidation_distance_total entry (some liq) =
    ground (arith, div_of_not_le (abs (sub entry liq)) entry)

-- The liquidation gate raises nothing, whatever entry, leverage and rate it is given: the divisions are
-- guarded.
pub passes_min_distance_total :
    (side : Side) (entry lev min_bps rate : Decimal)
    → Returns (passes_min_distance side entry lev min_bps rate)
unfolding passes_min_distance
passes_min_distance_total side entry lev min_bps rate =
    let (liq, e) = value_of_Returns _ (liquidation_price_total side entry lev rate) in
    rw e (let (dist, f) = value_of_Returns _ (liquidation_distance_total entry liq) in rw f tt)

-- What the gate has seen when it lets an entry through.
pub record IsFarEnough (side : Side) (entry lev min_bps rate : Decimal) (liq dist : Option Decimal)
    : Type 0 where
  pub entry_pos : le entry (of_ℕ 0) ≡ false
  pub leverage_pos : le lev (of_ℕ 0) ≡ false
  pub liq_lem : liq ≡ some (liq_price side entry lev rate)
  pub dist_lem : dist ≡ some (distance_bps entry (liq_price side entry lev rate))
  pub far : le min_bps (distance_bps entry (liq_price side entry lev rate)) ≡ true

-- If the liquidation gate passes, the entry and the leverage are positive, the price and the distance
-- that it returns are those of the formula, and the distance is at least the minimum.
pub passes_min_distance-IsFarEnough :
    (side : Side) (entry lev min_bps rate : Decimal) {liq dist : Option Decimal}
    → passes_min_distance side entry lev min_bps rate ≡ ok (true, liq, dist)
    → IsFarEnough side entry lev min_bps rate liq dist
unfolding passes_min_distance liquidation_price liquidation_distance_bps judge_distance
passes_min_distance-IsFarEnough side entry lev min_bps rate e = ground (
  arith,
  div_of_not_le (of_ℕ 1) lev,
  div_of_not_le (abs (sub entry (liq_price side entry lev rate))) entry,
)
