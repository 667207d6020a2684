-- ===== src/Backtest/Runner/Sequential.antt =====
-- The backtest terminates on as much fuel as there are candles, and holds one position at a time.
pub mod Turns
use nexocrypto.Decimal.{abs, div, le, mul, of_ℕ, sub, Decimal}
use nexocrypto.Backtest.Runner.Exits.{IsExitOf, IsFirst, find_exit-IsExitOf}
use nexocrypto.Backtest.Runner.{
  BacktestReport, report, run, prepend, walk, with_trade, Backtester, after_signal, enter, simulate,
  snapshot_at, step, Exit, exit_or_close, find_exit,
}
use nexocrypto.Strategies.Series.{at}
use mathlib.Core.Path.{subst}
use nexocrypto.Shared.{Signal, Uuid, Kline, Side}
use nexocrypto.Backtest.Fills.{
  SimulatedTrade, funding_paid_for_hold, simulate_entry_fill, simulate_exit_fill,
}
use nexocrypto.Execution.{stop}
use nexocrypto.Backtest.Metrics.Summary.{IsSummary, summarize-IsSummary}
use nexocrypto.Prelude.{
  map_option, ◌>>=◌, Gives, Result-cases, [], ltb, raised, suc, zero, Bool-cases, Result, String,
  head?, none, refl, some, ◌+◌, >>=-eq-ok, List, Option, Option-cases, ap, arith, drop, length,
  length-append, length-drop, ok_injective, ℕ, ◌-◌, ◌<◌, ◌∙◌, ◌≡◌, ◌≤◌, ◌∷◌, ok, inl, inr,
}
use nexocrypto.Backtest.Runner.Sequential.Turns.{IsHeld, TurnsTo, step_turns, next_ahead}

module _ (b : Backtester) (pair : String) (exchange : String) (ids : ℕ → Uuid)
    (klines : List Kline) where
  -- The trades in their order, from the index `i` on: each was signalled there or later, and the next one after its
  -- exit.
  abbrev pub AreSequential : ℕ → List SimulatedTrade → Type 0
  AreSequential i [] = Unit
  AreSequential i (t ∷ ts) =
      (at_signal : ℕ) × (last : ℕ) × (i ≤ at_signal)
      × IsHeld b pair exchange ids klines at_signal t last
      × AreSequential (last + 1) ts

  -- A loop that had fuel enough, and the trades that it gives if it returns.
  abbrev pub IsWalked : ℕ → Option (Result (List SimulatedTrade)) → Type 0
  IsWalked i none = ⊥
  IsWalked i (some m) = Gives (AreSequential i) m

  sooner :
      (i next : ℕ) (trades : List SimulatedTrade)
      → i ≤ next
      → AreSequential next trades
      → AreSequential i trades
  sooner i next [] h k = tt
  sooner i next (t ∷ ts) h (at_signal, last, ahead, held, rest) =
      (at_signal, last, omega (arith, h, ahead), held, rest)

  with_trade_lem :
      (i : ℕ) (o : Option SimulatedTrade) (next : ℕ) (trades : List SimulatedTrade)
      → TurnsTo b pair exchange ids klines i (o, next)
      → AreSequential next trades
      → AreSequential i (with_trade b pair exchange ids klines o trades)
  with_trade_lem i none next trades h k = sooner i next trades (omega (arith, h)) k
  with_trade_lem i (some t) next trades (last, e, held) k =
      (i, last, omega arith, held, subst (λ n. AreSequential n trades) e k)

  prepend_lem :
      (i : ℕ) (o : Option SimulatedTrade) (next : ℕ) (w : Option (Result (List SimulatedTrade)))
      → TurnsTo b pair exchange ids klines i (o, next)
      → IsWalked next w
      → IsWalked i (prepend b pair exchange ids klines o w)
  prepend_lem i o next none h k = absurd k
  prepend_lem i o next (some (raised x)) h k = tt
  prepend_lem i o next (some (ok trades)) h k = with_trade_lem i o next trades h k

  pub walk-IsWalked :
      (fuel i : ℕ)
      → length klines ≤ fuel + i + 1
      → IsWalked i (walk b pair exchange ids klines fuel i)
  unfolding walk
  walk-IsWalked zero i enough = elim (Bool-cases (ltb i (length klines - 1))) [
    | inl go ↦ absurd (ground (arith, enough))
    | inr done ↦ rw done tt
  ]
  walk-IsWalked (suc fuel) i enough = elim (Bool-cases (ltb i (length klines - 1))) [
    | inr done ↦ rw done tt
    | inl go ↦ elim (Result-cases (step b pair exchange ids klines i)) [
      | inr (x, e) ↦ rw (go, e) tt
      | inl ((o, next), e) ↦
          let turned = step_turns b pair exchange ids klines i (o, next) (ground arith) e in
          rw (go, e)
            (prepend_lem i o next (walk b pair exchange ids klines fuel next) turned (
              walk-IsWalked fuel next
                (omega (arith, enough, next_ahead b pair exchange ids klines i (o, next) turned))))
    ]
  ]

  -- A run that had fuel enough, and the report that it gives if it returns.
  abbrev pub IsRun : Option (Result BacktestReport) → Type 0
  IsRun none = ⊥
  IsRun (some m) =
      Gives (λ (r : BacktestReport). AreSequential 0 r.trades × IsSummary r.trades r.metrics) m

  report_lem :
      (timeframe : String) (w : Option (Result (List SimulatedTrade)))
      → IsWalked 0 w
      → IsRun (map_option (λ m. m >>= report b pair exchange ids klines timeframe) w)
  unfolding report
  report_lem timeframe none h = absurd h
  report_lem timeframe (some (raised x)) h = tt
  report_lem timeframe (some (ok trades)) h =
      let (m, e, is_summary) = summarize-IsSummary trades b.starting_equity in rw e (h, is_summary)

-- A backtest ends within as many steps as there are candles, whatever the strategy does. If it returns a report,
-- its trades are held one at a time and in order: each has a signal that the strategy gave at a candle's close for
-- the candles up to it, is opened at the open of the next candle on the signal's side and closed at the close of
-- the candle where the exit for the signal's stop and first target is, and the next trade is signalled later than
-- that; and the metrics are the summary of these trades.
pub run-IsRun :
    (b : Backtester) (pair exchange : String) (ids : ℕ → Uuid) (klines : List Kline)
    (timeframe : String)
    → IsRun b pair exchange ids klines (run b pair exchange ids klines (length klines) timeframe)
unfolding run
run-IsRun b pair exchange ids klines timeframe =
    report_lem b pair exchange ids klines timeframe
      (walk b pair exchange ids klines (length klines) 0)
      (walk-IsWalked b pair exchange ids klines (length klines) 0 (omega arith))
