-- ===== src/Paper.antt =====
-- services/engine/src/nexocrypto_engine/paper/engine.py: one tick of paper trading. What the strategy's
-- `evaluate` makes of a snapshot is an argument. The fill of an open position stands for its exit too.
pub mod Tick
use nexocrypto.Backtest.Fills.{ConservativeFillModel, SimulatedTrade, simulate_entry_fill}
use nexocrypto.Risk.Sizing.{approved}
use nexocrypto.Prelude.{
  Option, Result, String, [], false, if◌then◌else◌, none, ok, some, ℕ, ◌>>=◌, ◌∷◌,
}
use nexocrypto.Risk.Liquidation.{liquidation_distance_bps, liquidation_price}
use nexocrypto.Decimal.{Decimal, of_ℕ}
use nexocrypto.Risk.Engine.{EntryRequest, authorize_new_entry}
use nexocrypto.Risk.Ev.{EvInputs, ev_net_bps}
use nexocrypto.Risk.Types.{AccountState, StrategyStats}
use nexocrypto.Risk.Idempotency.{IdempotencyStore}
use nexocrypto.Shared.{
  Datetime, Hashing, Kline, RiskProfile, Signal, TradeDecision, Uuid, dedup_hash, paper,
}

-- The inputs of a tick, less the store. `timestamp` is `ctx.now.isoformat()`, `signal_id` what `uuid4` gave.
pub record PaperTick : Type 0 where
  pub snapshot_pair : String
  pub next_bar : Kline
  pub risk_profile : RiskProfile
  pub account : AccountState
  pub ev_inputs : EvInputs
  pub strategy_stats : Option StrategyStats
  pub now : Datetime
  pub timestamp : String
  pub signal_id : Uuid
  pub clock : ℕ

pub record PaperTickResult : Type 0 where
  pub decision : TradeDecision
  pub taken : Option Signal
  pub entry_fill : Option SimulatedTrade

-- The request that the tick makes to the risk engine.
abbrev pub paper_request : PaperTick → Signal → EntryRequest
paper_request tick sig = record {
  signal = sig;
  account = tick.account;
  risk_profile = tick.risk_profile;
  ev_inputs = tick.ev_inputs;
  strategy_stats = tick.strategy_stats;
  mode = paper;
  now = tick.now;
  clock = tick.clock;
}

-- A position that was just opened: the exit is still the entry.
unfoldable pub open_trade : Signal → Decimal → Kline → Decimal × Decimal × Decimal → SimulatedTrade
open_trade sig qty bar (entry, fee, slippage) = record {
  pair = sig.pair;
  side = sig.side;
  qty = qty;
  entry_price = entry;
  exit_price = entry;
  entry_fee = fee;
  exit_fee = of_ℕ 0;
  funding_paid = of_ℕ 0;
  slippage_cost = slippage;
  opened_at = bar.open_time;
  closed_at = bar.open_time;
  exit_reason = "open";
}

module _ (hashing : Hashing) where
  unfoldable pub no_signal_decision : PaperTick → TradeDecision
  no_signal_decision tick = record {
    signal_id = tick.signal_id;
    mode = paper;
    approved = false;
    reason = "no_signal";
    intended_order_type = none;
    intended_qty = none;
    intended_entry = none;
    intended_stop_loss = none;
    intended_take_profits = [];
    intended_leverage = none;
    ev_net_bps = none;
    liquidation_price = none;
    liquidation_distance_bps = none;
    fees_round_trip_bps = none;
    idempotency_key = dedup_hash hashing ("no_signal" ∷ tick.timestamp ∷ tick.snapshot_pair ∷ []);
    decided_at = tick.now;
    actor = "paper_engine";
  }

abbrev pub no_fill : TradeDecision → Option Signal → PaperTickResult
no_fill d sig = record { decision = d; taken = sig; entry_fill = none }

module _ (hashing : Hashing) (store : IdempotencyStore) (model : ConservativeFillModel) where
  open store use {State}

  -- An approved decision with its quantity is filled at the open of the next bar.
  unfoldable pub fill_qty :
      PaperTick → Signal → TradeDecision → Option Decimal → Result PaperTickResult
  fill_qty tick sig d none = ok (no_fill d (some sig))
  fill_qty tick sig d (some qty) =
      if d.approved
      then (do
        fill ← simulate_entry_fill sig.side qty tick.next_bar model
        ok (record {
          decision = d;
          taken = some sig;
          entry_fill = some (open_trade sig qty tick.next_bar fill);
        }))
      else ok (no_fill d (some sig))

  unfoldable pub fill_decision :
      PaperTick → Signal → TradeDecision × State → Result (PaperTickResult × State)
  fill_decision tick sig (d, s) = do ok ((← fill_qty tick sig d d.intended_qty), s)

  unfoldable pub paper_tick : PaperTick → Option Signal → State → Result (PaperTickResult × State)
  paper_tick tick none s = ok (no_fill (no_signal_decision hashing tick) none, s)
  paper_tick tick (some sig) s =
      authorize_new_entry hashing store (paper_request tick sig) s >>= fill_decision tick sig
