-- ===== src/Backtest/Fills.antt =====
-- services/engine/src/nexocrypto_engine/backtest/fills.py: simulated fills, which cost the trader half the
-- spread and the slippage on either side.
pub mod Costs
pub mod Conservative
use nexocrypto.Prelude.{Bool, Result, String, if◌then◌else◌, ok, ℤ, ◌>>=◌, ◌||◌}
use nexocrypto.Decimal.{Decimal, add, div, is_zero, le, lt, mul, of_ℕ, of_ℤ, sub}
use nexocrypto.Shared.{Datetime, FeeSchedule, Kline, Side, long, short}
use nexocrypto.Risk.Ev.{whole_cycles}

abbrev bps : Decimal
bps = of_ℕ 10000

pub record ConservativeFillModel : Type 0 where
  pub fee_schedule : FeeSchedule
  pub spread_bps : Decimal
  pub slippage_bps : Decimal
  pub use_taker_both_sides : Bool
  pub funding_rate_per_interval : Decimal
  pub funding_interval_hours : ℤ

pub record SimulatedTrade : Type 0 where
  pub pair : String
  pub side : Side
  pub qty : Decimal
  pub entry_price : Decimal
  pub exit_price : Decimal
  pub entry_fee : Decimal
  pub exit_fee : Decimal
  pub funding_paid : Decimal
  pub slippage_cost : Decimal
  pub opened_at : Datetime
  pub closed_at : Datetime
  pub exit_reason : String

unfoldable pub gross_pnl : SimulatedTrade → Decimal
gross_pnl t = elim t.side [
  | long ↦ mul (sub t.exit_price t.entry_price) t.qty
  | short ↦ mul (sub t.entry_price t.exit_price) t.qty
]

unfoldable pub total_fees : SimulatedTrade → Decimal
total_fees t = add t.entry_fee t.exit_fee

unfoldable pub net_pnl : SimulatedTrade → Decimal
net_pnl t = sub (sub (gross_pnl t) (total_fees t)) t.funding_paid

unfoldable pub entry_notional : SimulatedTrade → Decimal
entry_notional t = mul t.entry_price t.qty

unfoldable pub net_pnl_bps_of_notional : SimulatedTrade → Result Decimal
net_pnl_bps_of_notional t =
    let n = entry_notional t in
    if lt (of_ℕ 0) n then (do ok (mul (← div (net_pnl t) n) bps)) else ok (of_ℕ 0)

-- `cost_frac`: half the spread and the slippage, as a share of the price.
unfoldable pub cost_frac : ConservativeFillModel → Result Decimal
cost_frac model = do half ← div model.spread_bps (of_ℕ 2); div (add half model.slippage_bps) bps

-- The price that is paid, and how far it is from the reference.
unfoldable pub entry_price_with_cost :
    Decimal → ConservativeFillModel → Side → Result (Decimal × Decimal)
entry_price_with_cost reference model side = do
  fraction ← cost_frac model
  let delta = mul reference fraction
  ok (elim side [ long ↦ add reference delta | short ↦ sub reference delta ], delta)

unfoldable pub exit_price_with_cost :
    Decimal → ConservativeFillModel → Side → Result (Decimal × Decimal)
exit_price_with_cost reference model side = do
  fraction ← cost_frac model
  let delta = mul reference fraction
  ok (elim side [ long ↦ sub reference delta | short ↦ add reference delta ], delta)

unfoldable pub simulate_entry_fill :
    Side → Decimal → Kline → ConservativeFillModel → Result (Decimal × Decimal × Decimal)
simulate_entry_fill side qty bar model = do
  (eff, slip) ← entry_price_with_cost bar.open_price model side
  let fees = model.fee_schedule
  let fee_bps = if model.use_taker_both_sides then fees.taker_bps else fees.maker_bps
  share ← div fee_bps bps
  ok (eff, mul (mul eff qty) share, slip)

unfoldable pub simulate_exit_fill :
    Side → Decimal → Decimal → ConservativeFillModel → Result (Decimal × Decimal)
simulate_exit_fill side qty reference model = do
  (eff, slip) ← exit_price_with_cost reference model side
  share ← div model.fee_schedule.taker_bps bps
  ok (eff, mul (mul eff qty) share)

unfoldable pub funding_paid_for_hold : Decimal → Decimal → ConservativeFillModel → Result Decimal
unfolding of_ℤ
funding_paid_for_hold notional held_hours model =
    let none_due =
      is_zero model.funding_rate_per_interval || (le held_hours (of_ℕ 0) || le notional (of_ℕ 0)) in
    if none_due then ok (of_ℕ 0) else (do
      cycles ← div held_hours (of_ℤ model.funding_interval_hours)
      ok (mul (mul notional model.funding_rate_per_interval) (of_ℤ (whole_cycles cycles))))
