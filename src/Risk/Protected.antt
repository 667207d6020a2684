-- ===== src/Risk/Protected.antt =====
-- services/engine/src/nexocrypto_engine/risk/protected.py: the breakeven stop and the protected
-- profit floor that only moves up.
pub mod Ratchet
pub mod Ceiling
use nexocrypto.Prelude.{
  Bool, false, ◌||◌, Option, none, some, if◌then◌else◌, Result, ok, raised, value_error, ◌>>=◌,
}
use nexocrypto.Decimal.{Decimal, le, lt, max, of_ℕ, add, sub, mul, div}
use nexocrypto.Shared.{long, short}
use nexocrypto.Risk.Types.{PositionState}

abbrev bps : Decimal
bps = of_ℕ 10000

pub record ProtectedProfitState : Type 0 where
  pub peak_gain_net : Decimal
  pub protected_floor_net : Decimal

unfoldable pub gross_unrealized_pnl : PositionState → Decimal → Decimal
gross_unrealized_pnl position mark = elim position.side [
  | long ↦ mul (sub mark position.entry_price) position.qty
  | short ↦ mul (sub position.entry_price mark) position.qty
]

unfoldable pub net_unrealized_pnl : PositionState → Decimal → Decimal → Decimal → Result Decimal
net_unrealized_pnl position mark exit_taker_bps accrued_funding = do
  fraction ← div exit_taker_bps bps
  let exit_fee = mul (mul mark position.qty) fraction
  ok (sub (sub (gross_unrealized_pnl position mark) exit_fee) accrued_funding)

-- The new floor: never below the prior one.
unfoldable pub raise_floor : Option Decimal → Decimal → Decimal
raise_floor none candidate = candidate
raise_floor (some floor) candidate = max floor candidate

unfoldable pub advance_protected_floor :
    Decimal → Decimal → Option Decimal → Decimal → Result ProtectedProfitState
advance_protected_floor current_net_pnl prior_peak_net prior_floor_net giveback =
    if le giveback (of_ℕ 0) || lt (of_ℕ 1) giveback
    then raised value_error
    else (let new_peak = max prior_peak_net current_net_pnl in
        let candidate_floor = mul new_peak (sub (of_ℕ 1) giveback) in
        ok (record {
          peak_gain_net = new_peak;
          protected_floor_net = raise_floor prior_floor_net candidate_floor;
        }))

unfoldable pub should_trigger_protected_exit : Decimal → Option Decimal → Bool
should_trigger_protected_exit current none = false
should_trigger_protected_exit current (some floor) =
    if le floor (of_ℕ 0) then false else le current floor

unfoldable pub breakeven_stop_price : PositionState → Decimal → Result Decimal
breakeven_stop_price position exit_taker_bps = do
  fraction ← div exit_taker_bps bps
  let fee_buffer = mul position.entry_price fraction
  ok (elim position.side [
    | long ↦ add position.entry_price fee_buffer
    | short ↦ sub position.entry_price fee_buffer
  ])
