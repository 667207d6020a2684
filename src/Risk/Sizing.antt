-- ===== src/Risk/Sizing.antt =====
-- services/engine/src/nexocrypto_engine/risk/sizing.py: the quantity that loses the configured risk
-- at the stop, within the leverage and exposure caps.
pub mod Caps
use nexocrypto.Prelude.{Bool, true, false, List, [], ◌∷◌, if◌then◌else◌, Result, ok, ◌>>=◌}
use nexocrypto.Decimal.{Decimal, le, lt, min, of_ℕ, add, sub, mul, abs, div}
use nexocrypto.Shared.{Side, long, short, Signal, RiskProfile}
use nexocrypto.Risk.Types.{
  AccountState, RejectReason, is_ok, reason_ok, account_protection_lock, max_exposure_per_asset,
  max_total_exposure, size_below_min, size_risk_unreachable, min_rr_not_met, invalid_signal,
}

abbrev bps : Decimal
bps = of_ℕ 10000

pub record SizeIntent : Type 0 where
  pub qty : Decimal
  pub notional : Decimal
  pub leverage : Decimal
  pub margin_required : Decimal
  pub reject : RejectReason

-- The property `approved`.
abbrev pub approved : SizeIntent → Bool
approved s = is_ok s.reject

-- `_reject`
abbrev pub size_reject : RejectReason → SizeIntent
size_reject reason = record {
  qty = of_ℕ 0;
  notional = of_ℕ 0;
  leverage = of_ℕ 0;
  margin_required = of_ℕ 0;
  reject = reason;
}

-- The distance of a target in the favourable direction.
unfoldable pub tp_distance : Side → Decimal → Decimal → Decimal
tp_distance long entry tp = sub tp entry
tp_distance short entry tp = sub entry tp

-- Whether the first target of the list, which the source calls the nearest, misses the minimum reward to risk ratio.
-- The others are not looked at.
unfoldable pub misses_min_rr : Side → Decimal → List Decimal → Decimal → Decimal → Result Bool
misses_min_rr side entry [] stop_dist min_rr = ok false
misses_min_rr side entry (nearest_tp ∷ _) stop_dist min_rr =
    let tp_dist = tp_distance side entry nearest_tp in
    if le tp_dist (of_ℕ 0)
    then ok true
    else (do ratio ← div tp_dist stop_dist; ok (lt ratio min_rr))

-- The caps on the margin and the least quantity, on an entry of known quantity and leverage.
unfoldable pub check_caps :
    AccountState
    → RiskProfile
    → Decimal
    → Decimal
    → Decimal
    → Decimal
    → Decimal
    → Decimal
    → SizeIntent
check_caps account profile min_qty qty notional lev margin asset_margin_bps =
    if lt profile.max_exposure_per_asset_bps asset_margin_bps
    then size_reject max_exposure_per_asset
    else if lt profile.max_total_exposure_bps (add account.total_exposure_bps asset_margin_bps)
    then size_reject max_total_exposure
    else if lt qty min_qty
    then size_reject size_below_min
    else if le qty (of_ℕ 0)
    then size_reject size_risk_unreachable
    else record {
      qty = qty;
      notional = notional;
      leverage = lev;
      margin_required = margin;
      reject = reason_ok;
    }

-- The margin in basis points of the equity.
unfoldable pub margin_bps : Decimal → Decimal → Result Decimal
margin_bps margin equity =
    if lt (of_ℕ 0) equity then (do ok (mul (← div margin equity) bps)) else ok bps

-- The second half of `size_position`: leverage, notional and margin, then the caps.
unfoldable pub size_leveraged :
    Signal → AccountState → RiskProfile → Decimal → Decimal → Result SizeIntent
size_leveraged signal account profile min_qty raw_qty =
    let lev = min signal.leverage profile.max_leverage in
    if le lev (of_ℕ 0) then ok (size_reject invalid_signal) else (do
      let notional = mul raw_qty signal.entry
      margin ← if lt (of_ℕ 0) lev then div notional lev else ok notional
      asset_margin_bps ← margin_bps margin account.equity
      ok (check_caps account profile min_qty raw_qty notional lev margin asset_margin_bps))

unfoldable pub size_position : Signal → AccountState → RiskProfile → Decimal → Result SizeIntent
size_position signal account profile min_qty =
    let stop_dist = abs (sub signal.entry signal.stop_loss) in
    if le stop_dist (of_ℕ 0)
    then ok (size_reject invalid_signal)
    else if le account.equity (of_ℕ 0)
    then ok (size_reject account_protection_lock)
    else (do
      risk_fraction ← div profile.max_risk_per_trade_bps bps
      raw_qty ← div (mul account.equity risk_fraction) stop_dist
      missed ← misses_min_rr signal.side signal.entry signal.take_profits stop_dist profile.min_rr
      if missed
          then ok (size_reject min_rr_not_met)
          else size_leveraged signal account profile min_qty raw_qty)
