-- ===== src/Risk/Sizing/Caps.antt =====
-- What an approved size of risk/sizing.py respects, and that sizing never raises.
use nexocrypto.Prelude.{◌≡◌, refl, true, false, List, [], ◌∷◌, arith, ok, Returns}
use nexocrypto.Decimal.{Decimal, le, lt, min, of_ℕ, add, sub, mul, abs, quotient}
use nexocrypto.Decimal.Order.{min-le_left, min-le_right, le_of_not_lt, lt_of_not_le}
use nexocrypto.Decimal.Sign.{div_of_pos, div_of_not_le}
use nexocrypto.Shared.{Side, Signal, RiskProfile}
use nexocrypto.Risk.Types.{AccountState}
use nexocrypto.Risk.Sizing.{
  SizeIntent, approved, check_caps, tp_distance, misses_min_rr, margin_bps, size_leveraged,
  size_position,
}

abbrev pub bps : Decimal
bps = of_ℕ 10000

bps_pos : lt (of_ℕ 0) bps ≡ true
unfolding lt
bps_pos = refl

-- The distance from entry to stop.
abbrev pub stop_distance : Signal → Decimal
stop_distance s = abs (sub s.entry s.stop_loss)

-- The quantity that loses the configured share of the equity over that distance.
abbrev pub risk_qty : Signal → AccountState → RiskProfile → Decimal
risk_qty s a p = quotient (mul a.equity (quotient p.max_risk_per_trade_bps bps)) (stop_distance s)

-- The first target of the list, if there is one, pays at least `min_rr` times the risk. Nothing is said of the others.
abbrev pub MeetsRr : Side → Decimal → List Decimal → Decimal → Decimal → Type 0
MeetsRr side entry [] stop_dist min_rr = Unit
MeetsRr side entry (tp ∷ _) stop_dist min_rr =
    (lt (of_ℕ 0) (tp_distance side entry tp) ≡ true)
    × (le min_rr (quotient (tp_distance side entry tp) stop_dist) ≡ true)

-- The margin in basis points of the equity.
abbrev pub margin_share : SizeIntent → AccountState → Decimal
margin_share s a = mul (quotient s.margin_required a.equity) bps

-- An approved size: positive, at the risk quantity, within the leverage and exposure caps.
pub record IsSized (signal : Signal) (a : AccountState) (p : RiskProfile) (s : SizeIntent)
    : Type 0 where
  pub qty_risk : s.qty ≡ risk_qty signal a p
  pub qty_pos : lt (of_ℕ 0) s.qty ≡ true
  pub leverage_pos : lt (of_ℕ 0) s.leverage ≡ true
  pub leverage_cap : le s.leverage p.max_leverage ≡ true
  pub leverage_asked : le s.leverage signal.leverage ≡ true
  pub notional_lem : s.notional ≡ mul s.qty signal.entry
  pub margin_lem : s.margin_required ≡ quotient s.notional s.leverage
  pub asset_cap : le (margin_share s a) p.max_exposure_per_asset_bps ≡ true
  pub total_cap : le (add a.total_exposure_bps (margin_share s a)) p.max_total_exposure_bps ≡ true
  pub meets_rr :
      MeetsRr signal.side signal.entry signal.take_profits (stop_distance signal) p.min_rr

misses_min_rr_total :
    (side : Side) (entry : Decimal) (tps : List Decimal) (stop_dist min_rr : Decimal)
    → le stop_dist (of_ℕ 0) ≡ false
    → Returns (misses_min_rr side entry tps stop_dist min_rr)
unfolding misses_min_rr
misses_min_rr_total side entry [] stop_dist min_rr h = tt
misses_min_rr_total side entry (tp ∷ tps) stop_dist min_rr h =
    ground (arith, div_of_not_le (tp_distance side entry tp) stop_dist)

misses_min_rr-false :
    (side : Side) (entry : Decimal) (tps : List Decimal) (stop_dist min_rr : Decimal)
    → le stop_dist (of_ℕ 0) ≡ false
    → misses_min_rr side entry tps stop_dist min_rr ≡ ok false
    → MeetsRr side entry tps stop_dist min_rr
unfolding misses_min_rr
misses_min_rr-false side entry [] stop_dist min_rr h e = tt
misses_min_rr-false side entry (tp ∷ tps) stop_dist min_rr h e =
    let dist = tp_distance side entry tp in
    ground (
      arith,
      div_of_not_le dist stop_dist,
      lt_of_not_le dist (of_ℕ 0),
      le_of_not_lt (quotient dist stop_dist) min_rr,
    )

size_leveraged_total :
    (signal : Signal) (a : AccountState) (p : RiskProfile) (min_qty raw_qty : Decimal)
    → Returns (size_leveraged signal a p min_qty raw_qty)
unfolding size_leveraged margin_bps
size_leveraged_total signal a p min_qty raw_qty =
    let lev = min signal.leverage p.max_leverage in
    let notional = mul raw_qty signal.entry in
    ground (
      arith,
      div_of_pos notional lev,
      div_of_pos (quotient notional lev) a.equity,
      div_of_pos notional a.equity,
    )

-- Sizing never raises: what it divides by is above 0 on every path.
pub size_position_total :
    (signal : Signal) (a : AccountState) (p : RiskProfile) (min_qty : Decimal)
    → Returns (size_position signal a p min_qty)
unfolding size_position
size_position_total signal a p min_qty =
    let stop_dist = stop_distance signal in
    let amount = mul a.equity (quotient p.max_risk_per_trade_bps bps) in
    let raw_qty = quotient amount stop_dist in
    ground (
      arith,
      div_of_pos p.max_risk_per_trade_bps bps bps_pos,
      div_of_not_le amount stop_dist,
      misses_min_rr_total signal.side signal.entry signal.take_profits stop_dist p.min_rr,
      size_leveraged_total signal a p min_qty raw_qty,
    )

-- The caps of the second half, on a size that it approves.
size_leveraged_approved :
    (signal : Signal) (a : AccountState) (p : RiskProfile) (min_qty raw_qty : Decimal)
    (s : SizeIntent)
    → le a.equity (of_ℕ 0) ≡ false
    → size_leveraged signal a p min_qty raw_qty ≡ ok s
    → approved s ≡ true
    → (s.qty ≡ raw_qty)
      × (lt (of_ℕ 0) s.qty ≡ true)
      × (lt (of_ℕ 0) s.leverage ≡ true)
      × (s.leverage ≡ min signal.leverage p.max_leverage)
      × (s.notional ≡ mul s.qty signal.entry)
      × (s.margin_required ≡ quotient s.notional s.leverage)
      × (le (margin_share s a) p.max_exposure_per_asset_bps ≡ true)
      × (le (add a.total_exposure_bps (margin_share s a)) p.max_total_exposure_bps ≡ true)
unfolding size_leveraged margin_bps check_caps
size_leveraged_approved signal a p min_qty raw_qty s solvent e h =
    let lev = min signal.leverage p.max_leverage in
    let notional = mul raw_qty signal.entry in
    let margin = quotient notional lev in
    let share = mul (quotient margin a.equity) bps in
    ground (
      arith,
      lt_of_not_le lev (of_ℕ 0),
      lt_of_not_le a.equity (of_ℕ 0),
      lt_of_not_le raw_qty (of_ℕ 0),
      div_of_pos notional lev,
      div_of_pos margin a.equity,
      le_of_not_lt p.max_exposure_per_asset_bps share,
      le_of_not_lt p.max_total_exposure_bps (add a.total_exposure_bps share),
    )

-- The first half, on a size that is approved.
size_position_approved :
    (signal : Signal) (a : AccountState) (p : RiskProfile) (min_qty : Decimal) (s : SizeIntent)
    → size_position signal a p min_qty ≡ ok s
    → approved s ≡ true
    → (le a.equity (of_ℕ 0) ≡ false)
      × MeetsRr signal.side signal.entry signal.take_profits (stop_distance signal) p.min_rr
      × (size_leveraged signal a p min_qty (risk_qty signal a p) ≡ ok s)
unfolding size_position
size_position_approved signal a p min_qty s e h =
    let stop_dist = stop_distance signal in
    ground (
      arith,
      div_of_pos p.max_risk_per_trade_bps bps bps_pos,
      div_of_not_le (mul a.equity (quotient p.max_risk_per_trade_bps bps)) stop_dist,
      misses_min_rr_total signal.side signal.entry signal.take_profits stop_dist p.min_rr,
      misses_min_rr-false signal.side signal.entry signal.take_profits stop_dist p.min_rr,
    )

-- An approved size is the quantity that risks the allowed share of the equity, and it is positive; its
-- leverage is positive and at most what the signal asks and the profile allows; its margin stays
-- within the caps on the asset and on the total; and the first target, if any, meets the minimal
-- reward to risk.
pub size_position-IsSized :
    (signal : Signal) (a : AccountState) (p : RiskProfile) (min_qty : Decimal) (s : SizeIntent)
    → size_position signal a p min_qty ≡ ok s
    → approved s ≡ true
    → IsSized signal a p s
size_position-IsSized signal a p min_qty s e h =
    let (solvent, rr, rest) = size_position_approved signal a p min_qty s e h in
    let (qty, pos_qty, pos_lev, lev, notional, margin, asset, total) =
      size_leveraged_approved signal a p min_qty (risk_qty signal a p) s solvent rest h in
    record {
      qty_risk = qty;
      qty_pos = pos_qty;
      leverage_pos = pos_lev;
      leverage_cap = rw lev (min-le_right signal.leverage p.max_leverage);
      leverage_asked = rw lev (min-le_left signal.leverage p.max_leverage);
      notional_lem = notional;
      margin_lem = margin;
      asset_cap = asset;
      total_cap = total;
      meets_rr = rr;
    }
