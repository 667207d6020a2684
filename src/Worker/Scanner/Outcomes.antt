-- ===== src/Worker/Scanner/Outcomes.antt =====
-- A scan whose venue and strategies answer returns, with one outcome for each strategy, in their order.
use nexocrypto.Prelude.{
  length, sym, List, Option, Result, Returns, ap, append_nil, value_of_Returns, ℕ, ◌++◌, ◌+◌, ◌∙◌,
  ◌≡◌, none, some, [], ◌∷◌, ok, refl,
}
use nexocrypto.Risk.Engine.Refusal.{authorize_total}
use nexocrypto.Strategies.{Strategy}
use nexocrypto.Shared.{Formatting, Kline, Datetime, Hashing, MarketSnapshot, Signal, TradeDecision}
use nexocrypto.Risk.Engine.{authorize_new_entry}
use nexocrypto.Risk.Idempotency.{in_memory_store}
use nexocrypto.Risk.Ev.Gate.{HasInterval}
use mathlib.Core.List.{append_assoc}
use nexocrypto.Decimal.{Decimal, is_zero, of_ℤ}
use nexocrypto.Api.State.{Store}
use nexocrypto.Worker.Scanner.Defaults.{default_ev_inputs}
use mathlib.Core.Path.{subst}
use nexocrypto.Worker.Scanner.{
  FundingInfo, KlineSource, ScanRequest, ScanResult, scan_once, scan_setup, scan_snapshot,
  strategies_of, StrategyOutcome, request_of, scan_strategies, scan_strategy, after_evaluation,
  decide, ScanSetup, ScanState, Turn,
}

-- A decision stands beside a signal, and nowhere else.
abbrev IsDecided : Option Signal → Option TradeDecision → Type 0
IsDecided none none = Unit
IsDecided (some sig) (some d) = Unit
IsDecided none (some d) = ⊥
IsDecided (some sig) none = ⊥

-- The outcomes of some strategies, one for each, in their order.
abbrev pub AreOutcomes : List Strategy → List StrategyOutcome → Type 0
AreOutcomes [] [] = Unit
AreOutcomes (strat ∷ rest) (o ∷ os) =
    (o.strategy_key ≡ strat.key) × IsDecided o.signal o.decision × AreOutcomes rest os
AreOutcomes [] (o ∷ os) = ⊥
AreOutcomes (strat ∷ rest) [] = ⊥

-- Every strategy returns on the snapshot, in its turn.
abbrev pub AllEvaluate : (ℕ → Turn) → MarketSnapshot → Datetime → ℕ → List Strategy → Type 0
AllEvaluate turns snapshot now k [] = Unit
AllEvaluate turns snapshot now k (strat ∷ rest) =
    Returns (strat.evaluate (turns k).signal_id snapshot now)
    × AllEvaluate turns snapshot now (k + 1) rest

module _ (hashing : Hashing) (setup : ScanSetup) (interval : HasInterval setup.ev_inputs) where
  -- A turn that returns, and the outcome that it adds.
  abbrev Adds : Strategy → ScanState → Result ScanState → Type 0
  Adds strat s m =
      (s' : ScanState) × (m ≡ ok s')
      × (o : StrategyOutcome) × (s'.outcomes ≡ s.outcomes ++ o ∷ [])
      × (o.strategy_key ≡ strat.key)
      × IsDecided o.signal o.decision

  after_evaluation-Adds :
      (k : ℕ) (strat : Strategy) (s : ScanState) (o : Option Signal)
      → Adds strat s (after_evaluation hashing setup k strat s o)
  unfolding after_evaluation decide
  after_evaluation-Adds k strat s none = (_, refl, _, refl, refl, tt)
  after_evaluation-Adds k strat s (some sig) =
      let r = request_of setup k strat sig in
      let ((d, keys), e) =
        value_of_Returns (authorize_new_entry hashing in_memory_store r s.idem)
          (authorize_total hashing in_memory_store r s.idem interval) in
      rw e (_, refl, _, refl, refl, tt)

  scan_strategy-Adds :
      (k : ℕ) (strat : Strategy) (s : ScanState)
      → Returns (strat.evaluate (setup.turns k).signal_id setup.snapshot setup.now)
      → Adds strat s (scan_strategy hashing setup k strat s)
  unfolding scan_strategy
  scan_strategy-Adds k strat s h =
      let (o, e) =
        value_of_Returns (strat.evaluate (setup.turns k).signal_id setup.snapshot setup.now) h in
      rw e (after_evaluation-Adds k strat s o)

  -- The rest of a scan that returns, and the outcomes that it adds.
  abbrev Completes : List Strategy → ScanState → Result {0} Unit × ScanState → Type 0
  Completes strats s end =
      (end.0 ≡ ok tt)
      × (os : List StrategyOutcome) × (end.1.outcomes ≡ s.outcomes ++ os)
      × AreOutcomes strats os

  scan_strategies-Completes :
      (k : ℕ) (strats : List Strategy) (s : ScanState)
      → AllEvaluate setup.turns setup.snapshot setup.now k strats
      → Completes strats s (scan_strategies hashing setup k strats s)
  unfolding scan_strategies
  scan_strategies-Completes k [] s h = (refl, [], append_nil s.outcomes, tt)
  scan_strategies-Completes k (strat ∷ rest) s (h, hs) =
      let (s', e, o, grown, own, decided) = scan_strategy-Adds k strat s h in
      let (done, os, more, fit) = scan_strategies-Completes (k + 1) rest s' hs in
      rw e (
        done,
        o ∷ os,
        more
            ∙ ap (λ (xs : List StrategyOutcome). xs ++ os) grown
            ∙ append_assoc s.outcomes (o ∷ []) os,
        (own, decided, fit),
      )

interval_of_default :
    (funding_rate : Decimal) (now : Datetime) → HasInterval (default_ev_inputs funding_rate now)
unfolding is_zero of_ℤ
interval_of_default funding_rate now = refl

-- What a scan gives: a result on the venue's candles, with one outcome for each strategy.
abbrev pub IsScanned : List Kline → FundingInfo → List Strategy → Result ScanResult × Store → Type 0
IsScanned klines funding strats end =
    (res : ScanResult) × (end.0 ≡ ok res)
    × (res.kline_count ≡ length klines)
    × (res.mark_price ≡ funding.mark_price)
    × AreOutcomes strats res.outcomes

-- If the venue answers and every strategy returns in its turn, the scan returns: nothing in the risk engine or the
-- store raises. The result has one outcome for each strategy, in their order and under their keys, with a
-- decision beside each signal and nowhere else.
pub scan_once-IsScanned :
    (hashing : Hashing) (formatting : Formatting) (source : KlineSource) (r : ScanRequest)
    (turns : ℕ → Turn) (st : Store) (klines : List Kline) (funding : FundingInfo)
    → source.klines r.pair r.interval r.bars ≡ ok klines
    → source.funding r.pair ≡ ok funding
    → AllEvaluate turns
        (scan_setup hashing formatting r turns klines funding).snapshot
        r.now
        0
        (strategies_of hashing formatting r)
    → IsScanned klines funding
        (strategies_of hashing formatting r)
        (scan_once hashing formatting source r turns st)
unfolding scan_once scan_snapshot
scan_once-IsScanned hashing formatting source r turns st klines funding e f evaluate =
    let (done, os, grown, fit) =
      scan_strategies-Completes hashing (scan_setup hashing formatting r turns klines funding)
        (interval_of_default funding.funding_rate r.now) 0 (strategies_of hashing formatting r)
        (record { idem = []; outcomes = []; store = st }) evaluate in
    rw (e, f, done)
      (
        _,
        refl,
        refl,
        refl,
        subst (AreOutcomes (strategies_of hashing formatting r)) (sym grown) fit,
      )
