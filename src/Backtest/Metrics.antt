-- ===== src/Backtest/Metrics.antt =====
-- services/engine/src/nexocrypto_engine/backtest/metrics.py: the summary of the trades, on net profits.
pub mod Summary
use nexocrypto.Prelude.{
  Bool, List, if◌then◌else◌, length, map, ◌&&◌, ◌>>=◌, none, some, [], ◌∷◌, ok, ℕ, true, Option,
  Result,
}
use nexocrypto.Strategies.Series.{sum}
use nexocrypto.Decimal.{Decimal, add, div, le, lt, max, mul, neg, of_ℕ, sub}
use nexocrypto.Backtest.Fills.{
  SimulatedTrade, net_pnl, net_pnl_bps_of_notional, entry_notional, total_fees,
}

abbrev bps : Decimal
bps = of_ℕ 10000

pub record BacktestMetrics : Type 0 where
  pub sample_size : ℕ
  pub win_rate : Decimal
  pub avg_win_bps : Decimal
  pub avg_loss_bps : Decimal
  pub profit_factor : Option Decimal
  pub avg_rr : Option Decimal
  pub max_drawdown_bps : Decimal
  pub fee_drag_bps : Decimal
  pub optimistic : Bool

abbrev pub no_trades : BacktestMetrics
no_trades = record {
  sample_size = 0;
  win_rate = of_ℕ 0;
  avg_win_bps = of_ℕ 0;
  avg_loss_bps = of_ℕ 0;
  profit_factor = none;
  avg_rr = none;
  max_drawdown_bps = of_ℕ 0;
  fee_drag_bps = of_ℕ 0;
  optimistic = true;
}

-- The trades with a profit above 0, and the others.
unfoldable pub wins : List SimulatedTrade → List SimulatedTrade
wins [] = []
wins (t ∷ ts) = let rest = wins ts in if lt (of_ℕ 0) (net_pnl t) then t ∷ rest else rest

unfoldable pub losses : List SimulatedTrade → List SimulatedTrade
losses [] = []
losses (t ∷ ts) = let rest = losses ts in if le (net_pnl t) (of_ℕ 0) then t ∷ rest else rest

unfoldable pub all_bps : List SimulatedTrade → Result (List Decimal)
all_bps [] = ok []
all_bps (t ∷ ts) = do d ← net_pnl_bps_of_notional t; ds ← all_bps ts; ok (d ∷ ds)

-- The mean of some figures, 0 of none; `sign` is what the sum goes through first.
unfoldable pub mean_bps : (Decimal → Decimal) → List SimulatedTrade → Result Decimal
mean_bps sign [] = ok (of_ℕ 0)
mean_bps sign (t ∷ ts) = do ds ← all_bps (t ∷ ts); div (sign (sum ds)) (of_ℕ (length (t ∷ ts)))

-- a / b, if b is above 0.
unfoldable pub ratio_above_0 : Decimal → Decimal → Result (Option Decimal)
ratio_above_0 a b = if lt (of_ℕ 0) b then (do ok (some (← div a b))) else ok none

-- The equity, its peak and the largest drawdown so far.
pub record Curve : Type 0 where
  pub eq : Decimal
  pub peak : Decimal
  pub max_dd_bps : Decimal

unfoldable pub drawdown_bps : Decimal → Decimal → Result Decimal
drawdown_bps peak eq = do ratio ← div (sub peak eq) peak; ok (mul ratio bps)

abbrev pub worse : Decimal → Decimal → Decimal
worse max_dd dd = if lt max_dd dd then dd else max_dd

-- The curve at an equity and its peak.
unfoldable pub curve_at : Decimal → Decimal → Decimal → Result Curve
curve_at eq peak max_dd =
    if lt (of_ℕ 0) peak && lt eq peak
    then (do
      dd ← drawdown_bps peak eq
      ok (record { eq = eq; peak = peak; max_dd_bps = worse max_dd dd }))
    else ok (record { eq = eq; peak = peak; max_dd_bps = max_dd })

unfoldable pub curve_step : Curve → SimulatedTrade → Result Curve
curve_step c t = let eq = add c.eq (net_pnl t) in curve_at eq (max c.peak eq) c.max_dd_bps

unfoldable pub curve : Curve → List SimulatedTrade → Result Curve
curve c [] = ok c
curve c (t ∷ ts) = curve_step c t >>= (λ c'. curve c' ts)

unfoldable pub fee_drag : List SimulatedTrade → Result Decimal
fee_drag trades =
    let total_notional = sum (map entry_notional trades) in
    let fees = sum (map (λ (t : SimulatedTrade). add (total_fees t) t.funding_paid) trades) in
    if lt (of_ℕ 0) total_notional
    then (do ratio ← div fees total_notional; ok (mul ratio bps))
    else ok (of_ℕ 0)

-- The summary of at least one trade.
unfoldable pub summarize_some : List SimulatedTrade → Decimal → Result BacktestMetrics
summarize_some trades starting_equity = do
  win_rate ← div (of_ℕ (length (wins trades))) (of_ℕ (length trades))
  avg_win_bps ← mean_bps (λ d. d) (wins trades)
  avg_loss_bps ← mean_bps neg (losses trades)
  profit_factor ←
      ratio_above_0 (sum (map net_pnl (wins trades))) (neg (sum (map net_pnl (losses trades))))
  avg_rr ← ratio_above_0 avg_win_bps avg_loss_bps
  end ← curve (record { eq = starting_equity; peak = starting_equity; max_dd_bps = of_ℕ 0 }) trades
  fee_drag_bps ← fee_drag trades
  ok (record {
    sample_size = length trades;
    win_rate = win_rate;
    avg_win_bps = avg_win_bps;
    avg_loss_bps = avg_loss_bps;
    profit_factor = profit_factor;
    avg_rr = avg_rr;
    max_drawdown_bps = end.max_dd_bps;
    fee_drag_bps = fee_drag_bps;
    optimistic = true;
  })

unfoldable pub summarize : List SimulatedTrade → Decimal → Result BacktestMetrics
summarize [] starting_equity = ok no_trades
summarize (t ∷ ts) starting_equity = summarize_some (t ∷ ts) starting_equity
