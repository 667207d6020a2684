-- ===== src/Backtest/Fills/Costs.antt =====
-- What a simulated fill costs, and that the simulation raises nothing.
use nexocrypto.Shared.{Kline, Side, long, short}
use nexocrypto.Prelude.{le→leb, Returns, arith, false, if◌then◌else◌, ok, refl, ℕ, ◌≡◌}
use nexocrypto.Decimal.{le, Decimal, add, div, is_zero, mul, of_ℕ, of_ℤ, quotient, sub}
use nexocrypto.Decimal.Sign.{div_const, IsNonneg, add-IsNonneg, mul-IsNonneg, quotient-IsNonneg}
use nexocrypto.Backtest.Fills.{
  ConservativeFillModel, cost_frac, entry_price_with_cost, simulate_entry_fill,
  funding_paid_for_hold,
}

-- A model whose parameters are not negative.
pub record IsCosting (m : ConservativeFillModel) : Type 0 where
  pub spread : IsNonneg m.spread_bps
  pub slippage : IsNonneg m.slippage_bps
  pub taker : IsNonneg m.fee_schedule.taker_bps
  pub maker : IsNonneg m.fee_schedule.maker_bps

-- The cost that a fill adds to the price, as a share of it.
abbrev pub share : ConservativeFillModel → Decimal
share m = quotient (add (quotient m.spread_bps (of_ℕ 2)) m.slippage_bps) (of_ℕ 10000)

pub cost_frac_lem : (m : ConservativeFillModel) → cost_frac m ≡ ok (share m)
unfolding cost_frac
cost_frac_lem m = rw (div_const m.spread_bps 2 refl) (div_const _ 10000 refl)

of_ℕ-IsNonneg : (n : ℕ) → IsNonneg (of_ℕ n)
unfolding le
of_ℕ-IsNonneg n = le→leb 0 _ (omega arith)

pub share-IsNonneg : (m : ConservativeFillModel) → IsCosting m → IsNonneg (share m)
share-IsNonneg m c =
    quotient-IsNonneg _ (of_ℕ 10000)
      (add-IsNonneg _ m.slippage_bps
        (quotient-IsNonneg m.spread_bps (of_ℕ 2) c.spread (of_ℕ-IsNonneg 2)) c.slippage)
      (of_ℕ-IsNonneg 10000)

-- The rate of the fee on an entry.
abbrev pub entry_fee_bps : ConservativeFillModel → Decimal
entry_fee_bps m =
    if m.use_taker_both_sides then m.fee_schedule.taker_bps else m.fee_schedule.maker_bps

-- The price, the fee and the cost per unit of an entry at the open of a bar: the open, moved against
-- the side by half the spread and the slippage, and the fee on the price so moved.
abbrev pub entry_fill : Side → Decimal → Kline → ConservativeFillModel → Decimal × Decimal × Decimal
entry_fill side qty bar m =
    let slip = mul bar.open_price (share m) in
    let eff : Decimal = elim side [
      | long ↦ add bar.open_price slip
      | short ↦ sub bar.open_price slip
    ] in
    (eff, mul (mul eff qty) (quotient (entry_fee_bps m) (of_ℕ 10000)), slip)

-- An entry fill raises nothing, and gives the price, the fee and the cost of the formula; the cost is
-- not negative, if the price and the model's parameters are not.
pub simulate_entry_fill_lem :
    (side : Side) (qty : Decimal) (bar : Kline) (m : ConservativeFillModel)
    → (simulate_entry_fill side qty bar m ≡ ok (entry_fill side qty bar m))
      × (IsCosting m → IsNonneg bar.open_price → IsNonneg (mul bar.open_price (share m)))
unfolding simulate_entry_fill entry_price_with_cost
simulate_entry_fill_lem side qty bar m = (
  rw (cost_frac_lem m, div_const (entry_fee_bps m) 10000 refl) refl,
  λ costing positive. mul-IsNonneg bar.open_price (share m) positive (share-IsNonneg m costing),
)

-- Funding raises nothing if the interval is not 0.
pub funding_paid_total :
    (notional held : Decimal) (m : ConservativeFillModel)
    → is_zero (of_ℤ m.funding_interval_hours) ≡ false
    → Returns (funding_paid_for_hold notional held m)
unfolding funding_paid_for_hold div
funding_paid_total notional held m h = ground arith
