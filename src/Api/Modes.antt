-- ===== src/Api/Modes.antt =====
-- store.py: the trading mode, the risk profile and the fee schedules.
pub mod Gate
use nexocrypto.Api.State.{ModeState, Store, update}
use nexocrypto.Shared.{FeeSchedule, Mode, RiskProfile, Uuid, is_full_auto, is_live, paper}
use nexocrypto.Prelude.{
  List, Option, Result, false, if◌then◌else◌, none, not, ok, permission_error, raised, some, true,
  ◌&&◌,
}

-- A user with no row is in paper mode, locked out of live trading.
abbrev pub default_mode : ModeState
default_mode = record {
  mode = paper;
  paper_trades_count = 0;
  live_unlocked = false;
  account_protection_lock = false;
}

abbrev row_or_default : Option ModeState → ModeState
row_or_default none = default_mode
row_or_default (some m) = m

unfoldable pub get_mode : Uuid → Store → ModeState
get_mode user st = row_or_default (st.modes user)

unfoldable pub set_mode : Uuid → Mode → Store → Result (ModeState × Store)
set_mode user mode st =
    let current = get_mode user st in
    let next = record current { mode = mode } in
    if is_live mode && not current.live_unlocked
    then raised (permission_error "paper_gate_unmet")
    else if is_full_auto mode
    then raised (permission_error "full_auto_disabled_in_mvp")
    else ok (next, record st { modes = update st.modes user (some next) })

unfoldable pub unlock_live_for_test : Uuid → Store → Store
unlock_live_for_test user st = record st {
  modes = update st.modes user (some (record (get_mode user st) { live_unlocked = true }));
}

unfoldable pub get_risk_profile : Uuid → Store → Option RiskProfile
get_risk_profile user st = st.risk_profiles user

unfoldable pub put_risk_profile : Uuid → RiskProfile → Store → RiskProfile × Store
put_risk_profile user profile st =
    (profile, record st { risk_profiles = update st.risk_profiles user (some profile) })

unfoldable pub list_fee_schedules : Store → List FeeSchedule
list_fee_schedules st = st.fee_schedules

unfoldable pub put_fee_schedules : List FeeSchedule → Store → List FeeSchedule × Store
put_fee_schedules schedules st = (schedules, record st { fee_schedules = schedules })
