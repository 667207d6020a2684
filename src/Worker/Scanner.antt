-- ===== src/Worker/Scanner.antt =====
-- services/worker/src/nexocrypto_worker/scanner.py: one scan, from the venue's candles through every strategy
-- and the risk engine to the rows of the store. The venue is an argument; the id of a strategy's signal and the
-- clock reading at its claim are those of its turn. The store is the in-memory one, and the rows that are
-- written before an exception stay.
pub mod Defaults
pub mod Queue
pub mod Outcomes
use nexocrypto.Prelude.{
  Bool, Dict, List, Option, Result, String, if◌then◌else◌, length, lookup, ℤ, ◌&&◌, ◌++◌, ◌+◌,
  ◌>>=◌, none, some, [], ◌∷◌, ok, raised, ℕ, false, true,
}
use nexocrypto.Shared.{
  Datetime, Formatting, Hashing, Kline, MarketSnapshot, Mode, RiskProfile, Signal, TradeDecision,
  Uuid, is_semi_auto,
}
use nexocrypto.Strategies.{Strategy}
use nexocrypto.Risk.Engine.{EntryRequest, authorize_new_entry}
use nexocrypto.Risk.Types.{AccountState, StrategyStats}
use nexocrypto.Api.Signals.{add_parsed_signal, add_validated_signal}
use nexocrypto.Risk.Sizing.{approved}
use nexocrypto.Decimal.{Decimal}
use nexocrypto.Risk.Ev.{EvInputs}
use nexocrypto.Risk.Idempotency.{in_memory_store}
use nexocrypto.Api.Approvals.{add_approval}
use nexocrypto.Api.State.{Store}
use nexocrypto.Worker.Scanner.Defaults.{
  default_account, default_ev_inputs, default_risk_profile, default_strategies,
}

-- connectors/base.py: what the venue says of a perpetual's funding.
pub record FundingInfo : Type 0 where
  pub pair : String
  pub funding_rate : Decimal
  pub funding_interval_hours : ℤ
  pub next_funding_time : Datetime
  pub mark_price : Decimal
  pub last_price : Decimal
  pub max_funding_rate : Option Decimal
  pub min_funding_rate : Option Decimal

-- `KlineSource`: a call may raise.
pub record KlineSource : Type 0 where
  pub klines : String → String → ℕ → Result (List Kline)
  pub funding : String → Result FundingInfo

-- What one strategy's turn draws from outside.
pub record Turn : Type 0 where
  pub signal_id : Uuid
  pub clock : ℕ

pub record StrategyOutcome : Type 0 where
  pub strategy_key : String
  pub signal : Option Signal
  pub decision : Option TradeDecision

-- `pair`, `taken_at` and `kline_count` with the rest; `notes` is always empty.
pub record ScanResult : Type 0 where
  pub pair : String
  pub taken_at : Datetime
  pub kline_count : ℕ
  pub mark_price : Decimal
  pub funding_rate : Decimal
  pub outcomes : List StrategyOutcome
  pub notes : List String

-- The arguments of `scan_once`; `now` is the time that it settles on, and `has_store` says whether a store was
-- given.
pub record ScanRequest : Type 0 where
  pub pair : String
  pub interval : String
  pub bars : ℕ
  pub strategies : Option (List Strategy)
  pub risk_profile : Option RiskProfile
  pub account : Option AccountState
  pub mode : Mode
  pub strategy_stats : Option (Dict StrategyStats)
  pub now : Datetime
  pub has_store : Bool
  pub user_id : Option Uuid

-- `x or default`, of an object and of a list.
abbrev pub or_default {ℓ} : {A : Type ℓ} → Option A → A → A
or_default none default = default
or_default (some a) default = a

abbrev pub or_default_list {ℓ} : {A : Type ℓ} → Option (List A) → List A → List A
or_default_list (some (a ∷ rest)) default = a ∷ rest
or_default_list _ default = default

-- What stays the same through the loop.
pub record ScanSetup : Type 0 where
  pub snapshot : MarketSnapshot
  pub profile : RiskProfile
  pub acct : AccountState
  pub ev_inputs : EvInputs
  pub stats : Dict StrategyStats
  pub mode : Mode
  pub now : Datetime
  pub persist_for : Option Uuid
  pub turns : ℕ → Turn

pub record ScanState : Type 0 where
  pub idem : Dict ℕ
  pub outcomes : List StrategyOutcome
  pub store : Store

abbrev pub request_of : ScanSetup → ℕ → Strategy → Signal → EntryRequest
request_of setup k strat sig = record {
  signal = sig;
  account = setup.acct;
  risk_profile = setup.profile;
  ev_inputs = setup.ev_inputs;
  strategy_stats = lookup strat.key setup.stats;
  mode = setup.mode;
  now = setup.now;
  clock = (setup.turns k).clock;
}

-- The rows of one decision; an approved one is queued in semi-automatic mode only.
unfoldable pub persist : Option Uuid → Mode → Signal → TradeDecision → Store → Store
persist none mode sig d st = st
persist (some user) mode sig d st =
    let noted = (add_validated_signal user d (add_parsed_signal user sig none st).1).1 in
    if is_semi_auto mode && d.approved then (add_approval user sig d noted).1 else noted

abbrev pub with_outcome : Strategy → Option Signal → Option TradeDecision → ScanState → ScanState
with_outcome strat sig d s = record s {
  outcomes = s.outcomes ++ record { strategy_key = strat.key; signal = sig; decision = d } ∷ [];
}

-- An exception ends the scan with the state as it stands.
abbrev pub or_stop {ℓ κ μ} :
    {A : Type ℓ} → {B : Type κ} → {S : Type μ} → Result A → S → (A → Result B × S) → Result B × S
or_stop (raised e) s rest = (raised e, s)
or_stop (ok a) s rest = rest a

module _ (hashing : Hashing) where
  -- A signal that fired.
  unfoldable pub decide : ScanSetup → ℕ → Strategy → Signal → ScanState → Result ScanState
  decide setup k strat sig s = do
    (d, idem) ← authorize_new_entry hashing in_memory_store (request_of setup k strat sig) s.idem
    ok (
        with_outcome strat (some sig) (some d)
          (record s { idem = idem; store = persist setup.persist_for setup.mode sig d s.store }))

  unfoldable pub after_evaluation :
      ScanSetup → ℕ → Strategy → ScanState → Option Signal → Result ScanState
  after_evaluation setup k strat s none = ok (with_outcome strat none none s)
  after_evaluation setup k strat s (some sig) = decide setup k strat sig s

  -- The turn of one strategy.
  unfoldable pub scan_strategy : ScanSetup → ℕ → Strategy → ScanState → Result ScanState
  scan_strategy setup k strat s =
      strat.evaluate (setup.turns k).signal_id setup.snapshot setup.now
      >>= after_evaluation setup k strat s

  -- The loop from the turn `k` on: how it ended, and the state that it leaves.
  unfoldable pub scan_strategies :
      ScanSetup → ℕ → List Strategy → ScanState → Result {0} Unit × ScanState
  scan_strategies setup k [] s = (ok tt, s)
  scan_strategies setup k (strat ∷ rest) s =
      or_stop (scan_strategy setup k strat s) s (scan_strategies setup (k + 1) rest)

  module _ (formatting : Formatting) where
    abbrev pub strategies_of : ScanRequest → List Strategy
    strategies_of r = or_default_list r.strategies (default_strategies hashing formatting)

    abbrev pub scan_setup : ScanRequest → (ℕ → Turn) → List Kline → FundingInfo → ScanSetup
    scan_setup r turns klines funding = record {
      snapshot = record {
        pair = r.pair;
        exchange = "bitunix";
        taken_at = r.now;
        klines = klines;
        order_book = none;
        mark_price = some funding.mark_price;
        funding_rate = some funding.funding_rate;
        open_interest = none;
        spread_bps = none;
      };
      profile = or_default r.risk_profile default_risk_profile;
      acct = or_default r.account (default_account r.now);
      ev_inputs = default_ev_inputs funding.funding_rate r.now;
      stats = or_default r.strategy_stats [];
      mode = r.mode;
      now = r.now;
      persist_for = if r.has_store then r.user_id else none;
      turns = turns;
    }

    abbrev pub result_of :
        ScanRequest → List Kline → FundingInfo → List StrategyOutcome → ScanResult
    result_of r klines funding outcomes = record {
      pair = r.pair;
      taken_at = r.now;
      kline_count = length klines;
      mark_price = funding.mark_price;
      funding_rate = funding.funding_rate;
      outcomes = outcomes;
      notes = [];
    }

    -- After the snapshot of the venue.
    unfoldable pub scan_snapshot :
        ScanRequest → (ℕ → Turn) → Store → List Kline → FundingInfo → Result ScanResult × Store
    scan_snapshot r turns st klines funding =
        let (ended, s) =
          scan_strategies (scan_setup r turns klines funding) 0 (strategies_of r)
            (record { idem = []; outcomes = []; store = st }) in
        (ended >>= (λ done. ok (result_of r klines funding s.outcomes)), s.store)

    unfoldable pub scan_once :
        KlineSource → ScanRequest → (ℕ → Turn) → Store → Result ScanResult × Store
    scan_once source r turns st = or_stop (source.klines r.pair r.interval r.bars) st (λ klines.
        or_stop (source.funding r.pair) st (λ funding. scan_snapshot r turns st klines funding))
