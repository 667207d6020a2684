-- ===== src/Risk/Guards.antt =====
-- services/engine/src/nexocrypto_engine/risk/guards.py: the hard guards on a new entry.
pub mod Passing
use nexocrypto.Prelude.{
  ℕ, ◌*◌, Bool, false, not, ◌&&◌, Option, none, some, leb, if◌then◌else◌, ℤ, pos, ◌-ℤ◌, ltb_ℤ,
  Result, ok, ◌>>=◌,
}
use nexocrypto.Decimal.{Decimal, le, lt, of_ℕ, sub, neg, mul, div}
use nexocrypto.Shared.{Mode, is_live, RiskProfile, Datetime}
use nexocrypto.Risk.Types.{
  AccountState, RejectReason, reason_ok, account_protection_lock, paper_gate_unmet, stale_price,
  daily_loss_limit, weekly_loss_limit, drawdown_limit, max_open_positions, max_trades_per_hour,
  cooldown_after_loss, cooldown_after_volatility,
}

abbrev bps : Decimal
bps = of_ℕ 10000

unfoldable pub check_account_lock : AccountState → RejectReason
check_account_lock account =
    if account.account_protection_lock then account_protection_lock else reason_ok

unfoldable pub check_paper_gate : AccountState → Mode → RejectReason
check_paper_gate account mode =
    if is_live mode && not account.paper_gate_unlocked then paper_gate_unmet else reason_ok

-- `(now - then).total_seconds()`, kept in microseconds; it is negative for a time to come.
unfoldable pub elapsed : Datetime → Datetime → ℤ
unfolding ◌-ℤ◌
elapsed now since = pos now -ℤ pos since

-- A whole number of seconds on the same scale.
abbrev pub seconds : ℕ → ℤ
seconds n = pos (n * 1000000)

unfoldable pub check_stale_price : AccountState → Datetime → ℕ → RejectReason
unfolding elapsed
check_stale_price account now max_seconds = elim account.last_tick_at [
  | none ↦ stale_price
  | some tick ↦ if ltb_ℤ (seconds max_seconds) (elapsed now tick) then stale_price else reason_ok
]

-- A loss in basis points of the peak equity.
unfoldable pub loss_bps : Decimal → Decimal → Result Decimal
loss_bps loss peak = do ok (mul (← div loss peak) bps)

drawdown_bps : AccountState → Result Decimal
drawdown_bps a =
    if lt a.equity a.peak_equity
    then loss_bps (sub a.peak_equity a.equity) a.peak_equity
    else ok (of_ℕ 0)

-- The weekly test, which comes last.
check_weekly_loss : AccountState → RiskProfile → Result RejectReason
check_weekly_loss a profile =
    if lt a.weekly_realized_pnl (of_ℕ 0)
    then (do
      weekly_loss_bps ← loss_bps (neg a.weekly_realized_pnl) a.peak_equity
      ok (if le profile.max_weekly_loss_bps weekly_loss_bps then weekly_loss_limit else reason_ok))
    else ok reason_ok

-- The daily test, then the weekly one.
check_daily_loss : AccountState → RiskProfile → Result RejectReason
unfolding check_weekly_loss
check_daily_loss a profile =
    if lt a.daily_realized_pnl (of_ℕ 0)
    then (do
      daily_loss_bps ← loss_bps (neg a.daily_realized_pnl) a.peak_equity
      if le profile.max_daily_loss_bps daily_loss_bps
          then ok daily_loss_limit
          else check_weekly_loss a profile)
    else check_weekly_loss a profile

unfoldable pub check_loss_guards : AccountState → RiskProfile → Result RejectReason
unfolding drawdown_bps check_daily_loss
check_loss_guards a profile =
    if lt (of_ℕ 0) a.peak_equity
    then (do
      dd_bps ← drawdown_bps a
      if le profile.max_drawdown_bps dd_bps then ok drawdown_limit else check_daily_loss a profile)
    else ok reason_ok

unfoldable pub check_exposure_caps : AccountState → RiskProfile → RejectReason
check_exposure_caps account profile =
    if leb profile.max_open_positions account.open_positions_count
    then max_open_positions
    else if leb profile.max_trades_per_hour account.trades_last_hour
    then max_trades_per_hour
    else reason_ok

-- A cooldown runs while less than `seconds` have passed since the event.
cooling : Option Datetime → Datetime → ℕ → Bool
unfolding elapsed
cooling none now n = false
cooling (some at) now n = ltb_ℤ (elapsed now at) (seconds n)

unfoldable pub check_cooldowns : AccountState → RiskProfile → Datetime → RejectReason
unfolding cooling
check_cooldowns a profile now =
    if cooling a.last_loss_at now profile.cooldown_after_loss_seconds
    then cooldown_after_loss
    else if cooling a.last_volatility_spike_at now profile.cooldown_after_volatility_spike_seconds
    then cooldown_after_volatility
    else reason_ok
