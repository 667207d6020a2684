-- ===== src/Backtest/Fills/Conservative.antt =====
-- A simulated fill never favours the trader.
use nexocrypto.Backtest.Fills.{
  ConservativeFillModel, simulate_entry_fill, simulate_exit_fill, exit_price_with_cost,
}
use nexocrypto.Backtest.Fills.Costs.{
  share, entry_fill, IsCosting, cost_frac_lem, share-IsNonneg, simulate_entry_fill_lem,
}
use nexocrypto.Decimal.{Decimal, add, le, mul, of_ℕ, quotient, sub}
use nexocrypto.Decimal.Sign.{div_const, IsNonneg, mul-IsNonneg}
use nexocrypto.Prelude.{ok, refl, true, ◌≡◌}
use nexocrypto.Shared.{Kline, Side, long, short}
use nexocrypto.Decimal.Rounding.{IsExact}
use nexocrypto.Decimal.Bounds.{le-add, sub-le}

-- The price `eff` is no better than `reference` for one who buys, or for one who sells.
abbrev pub BuysAt : Decimal → Decimal → Type 0
BuysAt reference eff = le reference eff ≡ true

abbrev pub SellsAt : Decimal → Decimal → Type 0
SellsAt reference eff = le eff reference ≡ true

-- A long position buys at its entry and sells at its exit; a short one the other way round.
abbrev pub EntersAt : Side → Decimal → Decimal → Type 0
EntersAt long reference eff = BuysAt reference eff
EntersAt short reference eff = SellsAt reference eff

abbrev pub ExitsAt : Side → Decimal → Decimal → Type 0
ExitsAt long reference eff = SellsAt reference eff
ExitsAt short reference eff = BuysAt reference eff

-- A price of at most 28 digits that is not negative.
abbrev pub IsPrice : Decimal → Type 0
IsPrice p = IsNonneg p × IsExact p

module _ (m : ConservativeFillModel) (costing : IsCosting m) (p : Decimal) (price : IsPrice p) where
  cost-IsNonneg : IsNonneg (mul p (share m))
  cost-IsNonneg = mul-IsNonneg p (share m) price.0 (share-IsNonneg m costing)

  entry-EntersAt :
      (side : Side) (qty : Decimal) (bar : Kline)
      → bar.open_price ≡ p
      → EntersAt side p (entry_fill side qty bar m).0
  entry-EntersAt long qty bar e = rw e (le-add p _ cost-IsNonneg price.1)
  entry-EntersAt short qty bar e = rw e (sub-le p _ cost-IsNonneg price.1)

  exit-ExitsAt :
      (side : Side) (qty : Decimal)
      → (x : Decimal × Decimal) × (simulate_exit_fill side qty p m ≡ ok x) × ExitsAt side p x.0
  unfolding simulate_exit_fill exit_price_with_cost
  exit-ExitsAt long qty = (
    (
      sub p (mul p (share m)),
      mul (mul (sub p (mul p (share m))) qty) (quotient m.fee_schedule.taker_bps (of_ℕ 10000)),
    ),
    rw (cost_frac_lem m, div_const m.fee_schedule.taker_bps 10000 refl) refl,
    sub-le p _ cost-IsNonneg price.1,
  )
  exit-ExitsAt short qty = (
    (
      add p (mul p (share m)),
      mul (mul (add p (mul p (share m))) qty) (quotient m.fee_schedule.taker_bps (of_ℕ 10000)),
    ),
    rw (cost_frac_lem m, div_const m.fee_schedule.taker_bps 10000 refl) refl,
    le-add p _ cost-IsNonneg price.1,
  )

-- If no parameter of the model is negative, a fill never favours the trader, against a price that is
-- not negative and has at most 28 digits: an entry at a bar's open is no better than the open, an exit at
-- a reference no better than the reference, on both sides; and both fills return.
pub fills_cost :
    (m : ConservativeFillModel) (side : Side) (qty reference : Decimal) (bar : Kline)
    → IsCosting m
    → IsPrice bar.open_price
    → IsPrice reference
    → ((x : Decimal × Decimal × Decimal) × (simulate_entry_fill side qty bar m ≡ ok x)
        × EntersAt side bar.open_price x.0)
      × ((y : Decimal × Decimal) × (simulate_exit_fill side qty reference m ≡ ok y)
          × ExitsAt side reference y.0)
fills_cost m side qty reference bar costing open_price price = (
  (
    _,
    (simulate_entry_fill_lem side qty bar m).0,
    entry-EntersAt m costing bar.open_price open_price side qty bar refl,
  ),
  exit-ExitsAt m costing reference price side qty,
)
