-- ===== src/Backtest/Runner.antt =====
-- services/engine/src/nexocrypto_engine/backtest/runner.py: the walk over the candles, one position at a time. The
-- outer loop runs on fuel; as many steps as there are candles are enough.
pub mod Exits
pub mod Sequential
use nexocrypto.Prelude.{
  Bool, List, Option, Result, String, drop, head?, if◌then◌else◌, length, ltb, map, map_option,
  take, true, ◌+◌, ◌-◌, ◌>>=◌, none, some, [], ◌∷◌, ok, raised, ℕ, zero, suc, false,
}
use nexocrypto.Strategies.Series.{at, sum}
use nexocrypto.Decimal.{Decimal, abs, add, div, le, mul, of_ℕ, sub}
use nexocrypto.Backtest.Fills.{
  ConservativeFillModel, SimulatedTrade, funding_paid_for_hold, net_pnl, simulate_entry_fill,
  simulate_exit_fill,
}
use nexocrypto.Shared.{Kline, MarketSnapshot, Side, Signal, Uuid, long, short}
use nexocrypto.Strategies.{Strategy}
use nexocrypto.Backtest.Metrics.{BacktestMetrics, summarize}

-- `Backtester`, with the parameters of its strategy bound.
pub record Backtester : Type 0 where
  pub strategy : Strategy
  pub fill_model : ConservativeFillModel
  pub starting_equity : Decimal
  pub risk_per_trade_bps : Decimal
  pub leverage : Option Decimal
  pub bar_hours : Decimal

pub record BacktestReport : Type 0 where
  pub strategy_key : String
  pub pair : String
  pub timeframe : String
  pub starting_equity : Decimal
  pub metrics : BacktestMetrics
  pub trades : List SimulatedTrade
  pub optimistic : Bool

-- Where a position is closed: the index of the candle, the reference price and the reason.
pub record Exit : Type 0 where
  pub exit_idx : ℕ
  pub exit_ref : Decimal
  pub exit_reason : String

unfoldable pub hit_sl : Side → Decimal → Kline → Bool
hit_sl long sl bar = le bar.low sl
hit_sl short sl bar = le sl bar.high

-- `tp_price is not None and ...`: the target that is hit.
unfoldable pub hit_tp : Side → Option Decimal → Kline → Option Decimal
hit_tp side none bar = none
hit_tp long (some tp) bar = if le tp bar.high then some tp else none
hit_tp short (some tp) bar = if le bar.low tp then some tp else none

abbrev pub or_later : Option Exit → Option Exit → Option Exit
or_later (some e) later = some e
or_later none later = later

-- The exit at one candle, the stop first.
unfoldable pub exit_at : Side → Option Decimal → Decimal → ℕ → Kline → Option Exit
exit_at side tp sl j bar =
    if hit_sl side sl bar
    then some (record { exit_idx = j; exit_ref = sl; exit_reason = "sl" })
    else map_option (λ ref. record { exit_idx = j; exit_ref = ref; exit_reason = "tp" })
        (hit_tp side tp bar)

-- The loop over the candles from the index `j` on.
unfoldable pub find_exit : Side → Option Decimal → Decimal → ℕ → List Kline → Option Exit
find_exit side tp sl j [] = none
find_exit side tp sl j (bar ∷ rest) =
    or_later (exit_at side tp sl j bar) (find_exit side tp sl (j + 1) rest)

-- The exit that was found, or the close of the last candle.
unfoldable pub exit_or_close : List Kline → Option Exit → Result Exit
exit_or_close klines (some e) = ok e
exit_or_close klines none = do
  bar ← at klines (length klines - 1)
  ok (record { exit_idx = length klines - 1; exit_ref = bar.close; exit_reason = "forced_close" })

module _ (b : Backtester) (pair : String) (exchange : String) (ids : ℕ → Uuid)
    (klines : List Kline) where
  abbrev pub snapshot_at : ℕ → Kline → MarketSnapshot
  snapshot_at i bar = record {
    pair = pair;
    exchange = exchange;
    taken_at = bar.close_time;
    klines = take (i + 1) klines;
    order_book = none;
    mark_price = some bar.close;
    funding_rate = none;
    open_interest = none;
    spread_bps = none;
  }

  -- A position from the candle after `i` to its exit, and the index to go on from.
  unfoldable pub simulate : ℕ → Signal → Decimal → Result (Option SimulatedTrade × ℕ)
  simulate i sig qty = do
    entry_bar ← at klines (i + 1)
    (eff_entry, entry_fee, slip) ← simulate_entry_fill sig.side qty entry_bar b.fill_model
    e ←
        exit_or_close klines
          (find_exit sig.side (head? sig.take_profits) sig.stop_loss (i + 1) (drop (i + 1) klines))
    funding ←
        funding_paid_for_hold (mul eff_entry qty)
          (mul b.bar_hours (of_ℕ (e.exit_idx - (i + 1) + 1))) b.fill_model
    (eff_exit, exit_fee) ← simulate_exit_fill sig.side qty e.exit_ref b.fill_model
    exit_bar ← at klines e.exit_idx
    ok (
      some (record {
        pair = pair;
        side = sig.side;
        qty = qty;
        entry_price = eff_entry;
        exit_price = eff_exit;
        entry_fee = entry_fee;
        exit_fee = exit_fee;
        funding_paid = funding;
        slippage_cost = slip;
        opened_at = entry_bar.open_time;
        closed_at = exit_bar.close_time;
        exit_reason = e.exit_reason;
      }),
      e.exit_idx + 1,
    )

  -- The quantity that risks the share of the starting equity at the stop.
  unfoldable pub enter : ℕ → Signal → Result (Option SimulatedTrade × ℕ)
  enter i sig =
      let stop_dist = abs (sub sig.entry sig.stop_loss) in
      if le stop_dist (of_ℕ 0) then ok (none, i + 1) else (do
        share ← div b.risk_per_trade_bps (of_ℕ 10000)
        qty ← div (mul b.starting_equity share) stop_dist
        if le qty (of_ℕ 0) then ok (none, i + 1) else simulate i sig qty)

  unfoldable pub after_signal : ℕ → Option Signal → Result (Option SimulatedTrade × ℕ)
  after_signal i none = ok (none, i + 1)
  after_signal i (some sig) = enter i sig

  -- One turn of the outer loop at the index `i`: a trade, if there is one, and the next index.
  unfoldable pub step : ℕ → Result (Option SimulatedTrade × ℕ)
  step i = do
    bar ← at klines i
    o ← b.strategy.evaluate (ids i) (snapshot_at i bar) bar.close_time
    after_signal i o

  abbrev pub with_trade : Option SimulatedTrade → List SimulatedTrade → List SimulatedTrade
  with_trade none trades = trades
  with_trade (some t) trades = t ∷ trades

  abbrev pub prepend :
      Option SimulatedTrade
      → Option (Result (List SimulatedTrade))
      → Option (Result (List SimulatedTrade))
  prepend o rest = map_option (λ m. m >>= (λ trades. ok (with_trade o trades))) rest

  -- The outer loop: `none` where the fuel does not suffice.
  unfoldable pub walk : ℕ → ℕ → Option (Result (List SimulatedTrade))
  walk zero i = if ltb i (length klines - 1) then none else some (ok [])
  walk (suc fuel) i =
      if ltb i (length klines - 1)
      then elim (step i) [ raised e ↦ some (raised e) | ok (o, next) ↦ prepend o (walk fuel next) ]
      else some (ok [])

  unfoldable pub report : String → List SimulatedTrade → Result BacktestReport
  report timeframe trades = do
    metrics ← summarize trades b.starting_equity
    ok (record {
      strategy_key = b.strategy.key;
      pair = pair;
      timeframe = timeframe;
      starting_equity = b.starting_equity;
      metrics = metrics;
      trades = trades;
      optimistic = true;
    })

  -- `Backtester.run`
  unfoldable pub run : ℕ → String → Option (Result BacktestReport)
  run fuel timeframe = map_option (λ m. m >>= report timeframe) (walk fuel 0)

-- `ending_equity`
unfoldable pub ending_equity : BacktestReport → Decimal
ending_equity r = add r.starting_equity (sum (map net_pnl r.trades))
