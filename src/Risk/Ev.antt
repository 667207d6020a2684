-- ===== src/Risk/Ev.antt =====
-- services/engine/src/nexocrypto_engine/risk/ev.py: the expected value of an entry after costs, in
-- basis points of the notional, and its gate.
pub mod Gate
use nexocrypto.Prelude.{
  ◌+◌, Bool, true, false, ◌||◌, Option, none, some, ltb, ◌==◌, if◌then◌else◌, ℤ, pos, ◌+ℤ◌, Result,
  ok, ◌>>=◌, pos_part, neg_part,
}
use nexocrypto.Decimal.{Decimal, le, lt, is_zero, of_ℕ, of_ℤ, to_ℤ, add, sub, mul, div}
use nexocrypto.Shared.{Mode, is_live, FeeSchedule}
use nexocrypto.Risk.Types.{
  StrategyStats, RejectReason, reason_ok, ev_negative_after_costs, ev_stats_unknown,
}

pub record EvInputs : Type 0 where
  pub fee_schedule : FeeSchedule
  pub use_taker_both_sides : Bool
  pub expected_spread_bps : Decimal
  pub expected_slippage_bps : Decimal
  pub expected_hold_hours : Decimal
  pub funding_rate : Decimal
  pub funding_interval_hours : ℤ

unfoldable pub round_trip_fees_bps : EvInputs → Decimal
round_trip_fees_bps inputs =
    if inputs.use_taker_both_sides
    then mul inputs.fee_schedule.taker_bps (of_ℕ 2)
    else add inputs.fee_schedule.taker_bps inputs.fee_schedule.maker_bps

-- The number of funding charges: `int(cycles)`, one more for a fraction, and at least one.
unfoldable pub whole_cycles : Decimal → ℤ
unfolding to_ℤ of_ℤ ◌+ℤ◌
whole_cycles cycles =
    let floor = to_ℤ cycles in
    let whole = if lt (of_ℤ floor) cycles then floor +ℤ pos 1 else floor in
    if pos_part whole + neg_part whole == 0 then pos 1 else whole

unfoldable pub expected_funding_bps : EvInputs → Result Decimal
unfolding of_ℤ
expected_funding_bps inputs =
    if le inputs.expected_hold_hours (of_ℕ 0) || is_zero inputs.funding_rate
    then ok (of_ℕ 0)
    else (do
      cycles ← div inputs.expected_hold_hours (of_ℤ inputs.funding_interval_hours)
      ok (mul (mul inputs.funding_rate (of_ℕ 10000)) (of_ℤ (whole_cycles cycles))))

unfoldable pub ev_net_bps : StrategyStats → EvInputs → Result Decimal
ev_net_bps stats inputs = do
  let p_win = stats.win_rate
  let p_loss = sub (of_ℕ 1) p_win
  let gross = sub (mul p_win stats.avg_win_bps) (mul p_loss stats.avg_loss_bps)
  funding ← expected_funding_bps inputs
  let fees = round_trip_fees_bps inputs
  let costs = add (add (add fees inputs.expected_spread_bps) inputs.expected_slippage_bps) funding
  ok (sub gross costs)

abbrev pub EvVerdict : Type 0
EvVerdict = Bool × RejectReason × Option Decimal

-- The gate on statistics that are missing or too few.
abbrev pub unknown_stats : Mode → EvVerdict
unknown_stats mode =
    if is_live mode then (false, ev_stats_unknown, none) else (true, reason_ok, none)

unfoldable pub ev_passes : Option StrategyStats → EvInputs → Mode → Decimal → Result EvVerdict
ev_passes none inputs mode min_bps = ok (unknown_stats mode)
ev_passes (some stats) inputs mode min_bps =
    if ltb stats.sample_size stats.min_sample_for_live then ok (unknown_stats mode) else (do
      ev ← ev_net_bps stats inputs
      ok (
          if le ev min_bps
          then (false, ev_negative_after_costs, some ev)
          else (true, reason_ok, some ev)))
