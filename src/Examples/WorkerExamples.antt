-- ===== src/Examples/WorkerExamples.antt =====
-- Examples for the scanner.
use nexocrypto.Prelude.{insert, lookup, length, ℕ, ◌≡◌, ok, some, none, [], ◌∷◌, refl, true, pos}
use nexocrypto.Shared.{dedup_hash, semi_auto}
use nexocrypto.Examples.Data.{plain_hashing, account, profile, signal, stats}
use nexocrypto.Api.State.{Store, empty_store}
use nexocrypto.Worker.Scanner.{
  after_evaluation, decide, persist, scan_snapshot, scan_strategies, scan_strategy, FundingInfo,
  KlineSource, ScanRequest, Turn, scan_once,
}
use nexocrypto.Decimal.{
  abs, add, div, is_zero, le, lt, min, mul, neg, of_ℤ, quotient, sub, to_ℤ, of_ℕ,
}
use nexocrypto.Strategies.{Strategy}
use nexocrypto.Worker.Scanner.Outcomes.{IsScanned, scan_once-IsScanned}
use nexocrypto.Worker.Scanner.Queue.{ScanQueues, scan_once-IsExtended}
use nexocrypto.Risk.Sizing.{
  check_caps, margin_bps, misses_min_rr, size_leveraged, size_position, tp_distance,
}
use nexocrypto.Risk.Engine.{
  after_distance, after_ev, after_guards, after_size, approve_decision, authorize_new_entry,
  claim_and_approve, entry_guards, reject_decision, then_check,
}
use nexocrypto.Risk.Ev.{
  ev_net_bps, ev_passes, expected_funding_bps, round_trip_fees_bps, whole_cycles,
}
use nexocrypto.Api.Approvals.{add_approval}
use nexocrypto.Risk.Guards.{
  check_account_lock, check_cooldowns, check_exposure_caps, check_loss_guards, check_paper_gate,
  check_stale_price, loss_bps,
}
use nexocrypto.Api.Signals.{add_parsed_signal, add_validated_signal}
use nexocrypto.Risk.Liquidation.{
  judge_distance, liquidation_distance_bps, liquidation_price, passes_min_distance,
}
use nexocrypto.Risk.Idempotency.{try_acquire_in_memory}
use nexocrypto.Examples.StrategyExamples.{candles, formatting}

abbrev funding : FundingInfo
funding = record {
  pair = "BTCUSDT";
  funding_rate = of_ℕ 0;
  funding_interval_hours = pos 8;
  next_funding_time = 9;
  mark_price = of_ℕ 104;
  last_price = of_ℕ 104;
  max_funding_rate = none;
  min_funding_rate = none;
}

abbrev venue : KlineSource
venue = record { klines = λ pair interval bars. ok candles; funding = λ pair. ok funding }

-- A strategy that fires always, and one that never does.
abbrev eager : Strategy
eager = record { key = "eager"; evaluate = λ id snap now. ok (some signal) }

abbrev idle : Strategy
idle = record { key = "idle"; evaluate = λ id snap now. ok none }

abbrev scan_request : ScanRequest
scan_request = record {
  pair = "BTCUSDT";
  interval = "5m";
  bars = 300;
  strategies = some (idle ∷ eager ∷ eager ∷ []);
  risk_profile = some profile;
  account = some account;
  mode = semi_auto;
  strategy_stats = some (("eager", stats) ∷ []);
  now = 200000000;
  has_store = true;
  user_id = some 1;
}

abbrev turns : ℕ → Turn
turns k = record { signal_id = k; clock = 5000000 }

-- The state that the scan leaves, with all of its code opened.
scanned : Store
unfolding authorize_new_entry after_guards after_distance after_size after_ev claim_and_approve
    approve_decision reject_decision entry_guards then_check check_account_lock check_paper_gate
    check_stale_price check_cooldowns check_loss_guards check_exposure_caps loss_bps
    passes_min_distance liquidation_price liquidation_distance_bps judge_distance size_position
    size_leveraged check_caps misses_min_rr tp_distance margin_bps ev_passes ev_net_bps
    expected_funding_bps round_trip_fees_bps whole_cycles div quotient add sub mul neg abs le lt min
    is_zero to_ℤ of_ℤ try_acquire_in_memory lookup insert dedup_hash scan_once scan_snapshot
    scan_strategies scan_strategy after_evaluation decide persist add_approval add_parsed_signal
    add_validated_signal
scanned = (scan_once plain_hashing formatting venue scan_request turns empty_store).1

-- The first signal is queued and its duplicate is not; both leave a candidate and a verdict.
queued_once : (length scanned.approvals ≡ 1) × (length scanned.signals ≡ 4)
unfolding scanned
queued_once = (refl, refl)

scan_once-IsExtended_example :
    ScanQueues plain_hashing formatting venue scan_request turns empty_store
      (scan_once plain_hashing formatting venue scan_request turns empty_store).1
scan_once-IsExtended_example =
    scan_once-IsExtended plain_hashing formatting venue scan_request turns empty_store

scan_once-IsScanned_example :
    IsScanned candles funding
      (idle ∷ eager ∷ eager ∷ [])
      (scan_once plain_hashing formatting venue scan_request turns empty_store)
scan_once-IsScanned_example =
    scan_once-IsScanned plain_hashing formatting venue scan_request turns empty_store candles
      funding refl refl (tt, (tt, (tt, tt)))
