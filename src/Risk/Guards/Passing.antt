-- ===== src/Risk/Guards/Passing.antt =====
-- What it means that a guard of risk/guards.py lets an entry through, and that no guard raises.
use nexocrypto.Prelude.{ℕ, ◌<◌, ◌≡◌, ◌↔◌, true, false, Option, none, some, arith, ◌≤ℤ◌, ok, Returns}
use nexocrypto.Decimal.{Decimal, le, lt, of_ℕ, neg, sub, mul, quotient}
use nexocrypto.Decimal.Sign.{div_of_pos}
use nexocrypto.Shared.{Mode, is_live, RiskProfile, Datetime}
use nexocrypto.Risk.Types.{AccountState, reason_ok}
use nexocrypto.Risk.Guards.{
  check_account_lock, check_paper_gate, check_stale_price, elapsed, seconds, loss_bps,
  check_loss_guards, check_exposure_caps, check_cooldowns,
}

pub check_account_lock_passes :
    (a : AccountState) → (check_account_lock a ≡ reason_ok) ↔ (a.account_protection_lock ≡ false)
unfolding check_account_lock
check_account_lock_passes a = ground arith

pub check_paper_gate_passes :
    (a : AccountState) (m : Mode)
    → (check_paper_gate a m ≡ reason_ok) ↔ (is_live m ≡ true → a.paper_gate_unlocked ≡ true)
unfolding check_paper_gate
check_paper_gate_passes a m = ground arith

-- A tick is fresh if it is known and at most `max_seconds` old.
abbrev pub IsFresh : Option Datetime → Datetime → ℕ → Type 0
IsFresh none now max_seconds = ⊥
IsFresh (some tick) now max_seconds = elapsed now tick ≤ℤ seconds max_seconds

pub check_stale_price_passes :
    (a : AccountState) (now : Datetime) (n : ℕ)
    → (check_stale_price a now n ≡ reason_ok) ↔ IsFresh a.last_tick_at now n
unfolding check_stale_price
check_stale_price_passes a now n = ground arith

-- A cooldown is over if its event never happened or is at least `n` seconds old.
abbrev pub HasCooled : Option Datetime → Datetime → ℕ → Type 0
HasCooled none now n = Unit
HasCooled (some at) now n = seconds n ≤ℤ elapsed now at

pub check_cooldowns_passes :
    (a : AccountState) (p : RiskProfile) (now : Datetime)
    → (check_cooldowns a p now ≡ reason_ok) ↔ (
        HasCooled a.last_loss_at now p.cooldown_after_loss_seconds
        × HasCooled a.last_volatility_spike_at now p.cooldown_after_volatility_spike_seconds)
unfolding check_cooldowns
check_cooldowns_passes a p now = ground arith

pub check_exposure_caps_passes :
    (a : AccountState) (p : RiskProfile)
    → (check_exposure_caps a p ≡ reason_ok) ↔ (
        (a.open_positions_count < p.max_open_positions)
        × (a.trades_last_hour < p.max_trades_per_hour))
unfolding check_exposure_caps
check_exposure_caps_passes a p = ground arith

-- The peak is above 0 wherever a loss is divided by it.
loss_bps_lem :
    (loss peak : Decimal)
    → lt (of_ℕ 0) peak ≡ true
    → loss_bps loss peak ≡ ok (mul (quotient loss peak) (of_ℕ 10000))
unfolding loss_bps
loss_bps_lem loss peak h = rw (div_of_pos loss peak h)

-- A loss in basis points of a peak above 0.
abbrev pub share_bps : Decimal → Decimal → Decimal
share_bps loss peak = mul (quotient loss peak) (of_ℕ 10000)

-- The three limits as one condition: none is reached, where the account has a peak above 0.
abbrev pub LossesWithin : AccountState → RiskProfile → Type 0
LossesWithin a p =
    lt (of_ℕ 0) a.peak_equity ≡ true
    → (lt a.equity a.peak_equity ≡ true
        → le p.max_drawdown_bps (share_bps (sub a.peak_equity a.equity) a.peak_equity) ≡ false)
      × (lt a.equity a.peak_equity ≡ false → le p.max_drawdown_bps (of_ℕ 0) ≡ false)
      × (lt a.daily_realized_pnl (of_ℕ 0) ≡ true
          → le p.max_daily_loss_bps (share_bps (neg a.daily_realized_pnl) a.peak_equity) ≡ false)
      × (lt a.weekly_realized_pnl (of_ℕ 0) ≡ true
          → le p.max_weekly_loss_bps (share_bps (neg a.weekly_realized_pnl) a.peak_equity) ≡ false)

-- The loss guards raise nothing, whatever the account: a peak of 0 or below is not divided by.
pub check_loss_guards_total : (a : AccountState) (p : RiskProfile) → Returns (check_loss_guards a p)
unfolding check_loss_guards
check_loss_guards_total a p = ground (
  arith,
  loss_bps_lem (sub a.peak_equity a.equity) a.peak_equity,
  loss_bps_lem (neg a.daily_realized_pnl) a.peak_equity,
  loss_bps_lem (neg a.weekly_realized_pnl) a.peak_equity,
)

-- The loss guards pass exactly if the peak of the account is not above 0, or the drawdown and every loss
-- of the day and of the week, in basis points of the peak, are below their limits.
pub check_loss_guards_passes :
    (a : AccountState) (p : RiskProfile) → (check_loss_guards a p ≡ ok reason_ok) ↔ LossesWithin a p
unfolding check_loss_guards
check_loss_guards_passes a p = ground (
  arith,
  loss_bps_lem (sub a.peak_equity a.equity) a.peak_equity,
  loss_bps_lem (neg a.daily_realized_pnl) a.peak_equity,
  loss_bps_lem (neg a.weekly_realized_pnl) a.peak_equity,
)
