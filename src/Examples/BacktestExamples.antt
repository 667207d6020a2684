-- ===== src/Examples/BacktestExamples.antt =====
-- Examples for the backtest: a long entry at every candle.
use nexocrypto.Prelude.{
  List, String, map, Option, Result, length, ℕ, ◌≡◌, ok, some, none, [], ◌∷◌, refl, pos, negsuc,
}
use nexocrypto.Shared.{Uuid, long}
use nexocrypto.Examples.Data.{signal}
use nexocrypto.Examples.PaperExamples.{fill_model}
use nexocrypto.Backtest.Runner.{
  after_signal, enter, exit_or_close, report, simulate, step, walk, BacktestReport, Backtester,
  exit_at, find_exit, hit_sl, hit_tp, run,
}
use nexocrypto.Backtest.Runner.Exits.{IsExitOf, find_exit-IsExitOf}
use nexocrypto.Decimal.{abs, div, is_zero, max, neg, quotient, add, le, lt, mul, of_ℕ, sub}
use nexocrypto.Backtest.Fills.{
  cost_frac, entry_notional, entry_price_with_cost, exit_price_with_cost, funding_paid_for_hold,
  net_pnl_bps_of_notional, simulate_entry_fill, simulate_exit_fill, SimulatedTrade, gross_pnl,
  net_pnl, total_fees,
}
use nexocrypto.Backtest.Metrics.{
  all_bps, curve, curve_at, curve_step, drawdown_bps, fee_drag, mean_bps, ratio_above_0,
  summarize_some, BacktestMetrics, losses, summarize, wins,
}
use nexocrypto.Backtest.Metrics.Summary.{IsSummary, summarize-IsSummary}
use nexocrypto.Backtest.Runner.Sequential.{IsRun, run-IsRun}
use nexocrypto.Strategies.{Strategy}
use nexocrypto.Strategies.Series.{at, sum, sum_from}
use nexocrypto.Examples.StrategyExamples.{candles}

-- Long at every candle, with the stop at 98 and the target at 106.
abbrev always : Strategy
always = record { key = "always"; evaluate = λ id snap now. ok (some signal) }

abbrev tester : Backtester
tester = record {
  strategy = always;
  fill_model = fill_model;
  starting_equity = of_ℕ 10000;
  risk_per_trade_bps = of_ℕ 50;
  leverage = none;
  bar_hours = record { coeff = pos 83; exp = negsuc 2 };
}

abbrev ids : ℕ → Uuid
ids i = i

-- The run, with all of its code opened.
ran : Option (Result BacktestReport)
unfolding run walk step after_signal enter simulate find_exit exit_at hit_sl hit_tp exit_or_close
    report at simulate_entry_fill simulate_exit_fill entry_price_with_cost exit_price_with_cost
    cost_frac funding_paid_for_hold summarize summarize_some wins losses all_bps mean_bps
    ratio_above_0 drawdown_bps curve_at curve_step curve fee_drag net_pnl gross_pnl total_fees
    entry_notional net_pnl_bps_of_notional sum sum_from div quotient add sub mul neg abs le lt max
    is_zero
ran = run tester "BTCUSDT" "binance" ids candles 4 "5m"

-- The exits of its trades.
exits : Option (Result BacktestReport) → List String
exits (some (ok r)) = map (λ (t : SimulatedTrade). t.exit_reason) r.trades
exits _ = []

-- Two trades, both closed at the target in the candle of their entry.
ran_lem : exits ran ≡ "tp" ∷ "tp" ∷ []
unfolding ran exits
ran_lem = refl

run-IsRun_example : IsRun tester "BTCUSDT" "binance" ids candles ran
unfolding ran
run-IsRun_example = run-IsRun tester "BTCUSDT" "binance" ids candles "5m"

find_exit-IsExitOf_example :
    IsExitOf long
      (some (of_ℕ 106))
      (of_ℕ 98)
      1
      candles
      (find_exit long (some (of_ℕ 106)) (of_ℕ 98) 1 candles)
find_exit-IsExitOf_example = find_exit-IsExitOf long (some (of_ℕ 106)) (of_ℕ 98) 1 candles

-- A winning trade, and a losing one.
won : SimulatedTrade
won = record {
  pair = "BTCUSDT";
  side = long;
  qty = of_ℕ 2;
  entry_price = of_ℕ 101;
  exit_price = of_ℕ 106;
  entry_fee = of_ℕ 1;
  exit_fee = of_ℕ 1;
  funding_paid = of_ℕ 0;
  slippage_cost = of_ℕ 0;
  opened_at = 1;
  closed_at = 2;
  exit_reason = "tp";
}

lost : SimulatedTrade
lost = record won { exit_price = of_ℕ 98; exit_reason = "sl" }

summarize-IsSummary_example :
    (m : BacktestMetrics) × (summarize (won ∷ lost ∷ []) (of_ℕ 10000) ≡ ok m)
    × IsSummary (won ∷ lost ∷ []) m
summarize-IsSummary_example = summarize-IsSummary (won ∷ lost ∷ []) (of_ℕ 10000)

-- One win of 8 and one loss of 8: a drawdown of 8 from 10008.
one_of_each : (length (wins (won ∷ lost ∷ [])) ≡ 1) × (length (losses (won ∷ lost ∷ [])) ≡ 1)
unfolding won lost wins losses net_pnl gross_pnl total_fees lt le add sub mul
one_of_each = (refl, refl)

-- The exit at the target is in the candle after the entry.
exits_at_target :
    find_exit long (some (of_ℕ 106)) (of_ℕ 98) 1 candles
    ≡ some (record { exit_idx = 2; exit_ref = of_ℕ 106; exit_reason = "tp" })
unfolding find_exit exit_at hit_sl hit_tp le
exits_at_target = refl
