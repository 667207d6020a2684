-- ===== src/Examples/PaperExamples.antt =====
-- Examples for the simulated fills and the paper engine.
use nexocrypto.Backtest.Fills.Costs.{entry_fill, IsCosting}
use nexocrypto.Paper.Tick.{paper_tick_opens, IsTicked}
use nexocrypto.Backtest.Fills.Conservative.{fills_cost, EntersAt, ExitsAt}
use nexocrypto.Prelude.{arith, Dict, [], false, negsuc, ok, pos, refl, some, true, ℕ, ◌≡◌}
use nexocrypto.Paper.{PaperTick, PaperTickResult, paper_tick}
use nexocrypto.Decimal.{le, Decimal, add, is_zero, mul, of_ℕ, of_ℤ, quotient}
use nexocrypto.Shared.{Kline, long}
use nexocrypto.Backtest.Fills.{ConservativeFillModel, simulate_entry_fill, simulate_exit_fill}
use nexocrypto.Risk.Idempotency.{in_memory_store}
use nexocrypto.Examples.Data.{account, ev_inputs, fees, plain_hashing, profile, signal, stats}

abbrev pub fill_model : ConservativeFillModel
fill_model = record {
  fee_schedule = fees;
  spread_bps = of_ℕ 1;
  slippage_bps = of_ℕ 1;
  use_taker_both_sides = true;
  funding_rate_per_interval = of_ℕ 0;
  funding_interval_hours = pos 8;
}

abbrev bar : Kline
bar = record {
  open_time = 210000000;
  open_price = of_ℕ 101;
  high = of_ℕ 102;
  low = of_ℕ 100;
  close = of_ℕ 101;
  volume = of_ℕ 7;
  close_time = 270000000;
}

abbrev paper_input : PaperTick
paper_input = record {
  snapshot_pair = "BTCUSDT";
  next_bar = bar;
  risk_profile = profile;
  account = account;
  ev_inputs = ev_inputs;
  strategy_stats = some stats;
  now = 200000000;
  timestamp = "t0";
  signal_id = 9;
  clock = 5000000;
}

-- 101 and 1.5 basis points of it.
entry_price : Decimal
unfolding mul add quotient
entry_price = (entry_fill long (of_ℕ 2) bar fill_model).0

expected_price : Decimal
expected_price = record { coeff = pos 10101515; exp = negsuc 4 }

entry_price_lem : (le entry_price expected_price ≡ true) × (le expected_price entry_price ≡ true)
unfolding entry_price expected_price le
entry_price_lem = (refl, refl)

interval_lem : is_zero (of_ℤ ev_inputs.funding_interval_hours) ≡ false
unfolding is_zero of_ℤ
interval_lem = refl

paper_tick_opens_example :
    (x : PaperTickResult) × (s : Dict ℕ) × (paper_tick plain_hashing in_memory_store fill_model
        paper_input
        (some signal)
        []
      ≡ ok (x, s))
    × IsTicked plain_hashing in_memory_store fill_model paper_input (some signal) [] x s
paper_tick_opens_example =
    paper_tick_opens plain_hashing in_memory_store fill_model paper_input (some signal) []
      interval_lem

fill_model-IsCosting : IsCosting fill_model
unfolding le
fill_model-IsCosting = record { spread = refl; slippage = refl; taker = refl; maker = refl }

fills_cost_example :
    ((x : Decimal × Decimal × Decimal) × (simulate_entry_fill long (of_ℕ 2) bar fill_model ≡ ok x)
      × EntersAt long (of_ℕ 101) x.0)
    × ((y : Decimal × Decimal) × (simulate_exit_fill long (of_ℕ 2) (of_ℕ 106) fill_model ≡ ok y)
        × ExitsAt long (of_ℕ 106) y.0)
unfolding le
fills_cost_example =
    fills_cost fill_model long (of_ℕ 2) (of_ℕ 106) bar fill_model-IsCosting (refl, omega arith)
      (refl, omega arith)
