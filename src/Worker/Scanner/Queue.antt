-- ===== src/Worker/Scanner/Queue.antt =====
-- What a scan queues for approval, as a relation on its turns: `persist` and the loop of `scan_once`.
pub mod Rows
use nexocrypto.Prelude.{
  Bool, Exception, Result-cases, ◌⊎◌, false, Result, raised, arith, ◌+◌, Bool-cases, refl, ◌&&◌,
  Dict, List, Option, append_nil, ℕ, ◌++◌, ◌∙◌, ◌≡◌, none, some, [], ◌∷◌, ok, inl, inr, true,
}
use nexocrypto.Risk.Engine.{authorize_new_entry}
use nexocrypto.Api.State.{Approval, Store}
use nexocrypto.Risk.Idempotency.{in_memory_store}
use nexocrypto.Risk.Engine.Approval.{authorize-IsAuthorized, IsAuthorized}
use nexocrypto.Api.Signals.{add_parsed_signal, add_validated_signal}
use nexocrypto.Api.Approvals.{add_approval, unless_zero}
use nexocrypto.Worker.Scanner.{
  ScanSetup, scan_setup, KlineSource, ScanRequest, ScanState, Turn, after_evaluation, decide,
  request_of, scan_once, scan_snapshot, scan_strategies, scan_strategy, strategies_of, persist,
  FundingInfo, with_outcome,
}
use mathlib.Core.List.{append_assoc}
use nexocrypto.Strategies.{Strategy}
use nexocrypto.Shared.{
  Formatting, Signal, backtest, breakeven_protection, full_auto, manual_override, paper, Hashing,
  Mode, Kline, TradeDecision, Uuid, is_semi_auto, semi_auto,
}
use nexocrypto.Worker.Scanner.Queue.Rows.{IsApprovalOf, Persisted, persist-Persisted, kept, added}

module _ (hashing : Hashing) (setup : ScanSetup) where
  -- What the strategy says in the turn `k`.
  abbrev pub evaluated : ℕ → Strategy → Result (Option Signal)
  evaluated k strat = strat.evaluate (setup.turns k).signal_id setup.snapshot setup.now

  -- What the risk engine says of its signal, at the claims of the turns before.
  abbrev pub authorized : ℕ → Strategy → Signal → Dict ℕ → Result (TradeDecision × Dict ℕ)
  authorized k strat sig keys =
      authorize_new_entry hashing in_memory_store (request_of setup k strat sig) keys

  -- The approvals that the turns from `k` on queue, at the claims of the turns before. Each turn without an
  -- exception queues nothing, or the approval of its own signal; the latter exactly if the risk engine approves
  -- this signal, the mode is the semi-automatic one and there is a user to write for.
  pub data Queues : ℕ → List Strategy → Dict ℕ → List Approval → Type 0 where
    finished : {k : ℕ} {keys : Dict ℕ} → Queues k [] keys []
    strategy_raised :
        {k : ℕ} {strat : Strategy} {rest : List Strategy} {keys : Dict ℕ} (e : Exception)
        → evaluated k strat ≡ raised e
        → Queues k (strat ∷ rest) keys []
    engine_raised :
        {k : ℕ} {strat : Strategy} {rest : List Strategy} {keys : Dict ℕ} (sig : Signal)
        (e : Exception)
        → evaluated k strat ≡ ok (some sig)
        → authorized k strat sig keys ≡ raised e
        → Queues k (strat ∷ rest) keys []
    quiet :
        {k : ℕ} {strat : Strategy} {rest : List Strategy} {keys : Dict ℕ} {later : List Approval}
        → evaluated k strat ≡ ok none
        → Queues (k + 1) rest keys later
        → Queues k (strat ∷ rest) keys later
    held_back :
        {k : ℕ} {strat : Strategy} {rest : List Strategy} {keys : Dict ℕ} {later : List Approval}
        (sig : Signal) (d : TradeDecision) (keys' : Dict ℕ)
        → evaluated k strat ≡ ok (some sig)
        → authorized k strat sig keys ≡ ok (d, keys')
        → (setup.persist_for ≡ none) ⊎ ((is_semi_auto setup.mode ≡ false) ⊎ (d.approved ≡ false))
        → Queues (k + 1) rest keys' later
        → Queues k (strat ∷ rest) keys later
    queued :
        {k : ℕ} {strat : Strategy} {rest : List Strategy} {keys : Dict ℕ} {later : List Approval}
        (sig : Signal) (d : TradeDecision) (keys' : Dict ℕ) (user : Uuid) (a : Approval)
        → evaluated k strat ≡ ok (some sig)
        → authorized k strat sig keys ≡ ok (d, keys')
        → d.approved ≡ true
        → IsAuthorized hashing in_memory_store (request_of setup k strat sig) keys d keys'
        → setup.mode ≡ semi_auto
        → setup.persist_for ≡ some user
        → IsApprovalOf user sig d a
        → Queues (k + 1) rest keys' later
        → Queues k (strat ∷ rest) keys (a ∷ later)

  -- The approvals of a store, with the queued ones behind them.
  pub record IsExtended (k : ℕ) (strats : List Strategy) (keys : Dict ℕ) (st st' : Store)
      : Type 0 where
    pub behind : List Approval
    pub grown : st'.approvals ≡ st.approvals ++ behind
    pub is_queue : Queues k strats keys behind

module _ (hashing : Hashing) (setup : ScanSetup) where
  unchanged :
      (k : ℕ) (strats : List Strategy) (keys : Dict ℕ) (st : Store)
      → Queues hashing setup k strats keys []
      → IsExtended hashing setup k strats keys st st
  unchanged k strats keys st q = record {
    behind = [];
    grown = append_nil st.approvals;
    is_queue = q;
  }

  -- A decided turn before the others.
  decided :
      (k : ℕ) (strat : Strategy) (rest : List Strategy) (keys keys' : Dict ℕ) (sig : Signal)
      (d : TradeDecision) (st st' st'' : Store)
      → evaluated hashing setup k strat ≡ ok (some sig)
      → authorized hashing setup k strat sig keys ≡ ok (d, keys')
      → Persisted setup.persist_for setup.mode sig d st st'
      → IsExtended hashing setup (k + 1) rest keys' st' st''
      → IsExtended hashing setup k (strat ∷ rest) keys st st''
  decided k strat rest keys keys' sig d st st' st'' fired called (kept why same) later = record {
    behind = later.behind;
    grown = rw (← same) later.grown;
    is_queue = held_back sig d keys' fired called why later.is_queue;
  }
  decided k strat rest keys keys' sig d st st' st'' fired called
        (added owner a is_approved in_mode user of_signal grown) later =
      let is_authorized =
        authorize-IsAuthorized hashing in_memory_store (request_of setup k strat sig) keys d keys'
          called is_approved in
      record {
        behind = a ∷ later.behind;
        grown = later.grown ∙ rw grown (append_assoc st.approvals (a ∷ []) later.behind);
        is_queue =
            queued sig d keys' owner a fired called is_approved is_authorized in_mode user of_signal
              later.is_queue;
      }

  scan_strategies-IsExtended :
      (k : ℕ) (strats : List Strategy) (s : ScanState)
      → IsExtended hashing setup k strats s.idem s.store
          (scan_strategies hashing setup k strats s).1.store
  unfolding scan_strategies scan_strategy after_evaluation decide
  scan_strategies-IsExtended k [] s = unchanged k [] s.idem s.store finished
  scan_strategies-IsExtended k (strat ∷ rest) s =
      elim (Result-cases (evaluated hashing setup k strat)) [
        | inr (e, h) ↦ rw h (unchanged k (strat ∷ rest) s.idem s.store (strategy_raised e h))
        | inl (none, h) ↦
            let later = scan_strategies-IsExtended (k + 1) rest (with_outcome strat none none s) in
            rw h (record {
              behind = later.behind;
              grown = later.grown;
              is_queue = quiet h later.is_queue;
            })
        | inl (some sig, h) ↦ elim (Result-cases (authorized hashing setup k strat sig s.idem)) [
          | inr (e, g) ↦
              rw (h, g) (unchanged k (strat ∷ rest) s.idem s.store (engine_raised sig e h g))
          | inl ((d, keys'), g) ↦
              let st' = persist setup.persist_for setup.mode sig d s.store in
              let later =
                scan_strategies-IsExtended (k + 1) rest (
                  with_outcome strat (some sig) (some d)
                    (record s { idem = keys'; store = st' })) in
              rw (h, g)
                (decided k strat rest s.idem keys' sig d s.store st' _ h g
                  (persist-Persisted setup.persist_for setup.mode sig d s.store (λ is_approved.
                    (authorize-IsAuthorized hashing in_memory_store (request_of setup k strat sig)
                      s.idem d keys' g is_approved).key))
                  later)
        ]
      ]

-- How a scan leaves the approvals: as they were if the venue does not answer, and else with what its turns queue.
pub data ScanQueues (hashing : Hashing) (formatting : Formatting) (source : KlineSource)
    (r : ScanRequest) (turns : ℕ → Turn) (st st' : Store) : Type 0 where
  no_klines :
      (e : Exception)
      → source.klines r.pair r.interval r.bars ≡ raised e
      → st'.approvals ≡ st.approvals
      → ScanQueues hashing formatting source r turns st st'
  no_funding :
      (e : Exception)
      → source.funding r.pair ≡ raised e
      → st'.approvals ≡ st.approvals
      → ScanQueues hashing formatting source r turns st st'
  snapshot_taken :
      (klines : List Kline) (funding : FundingInfo)
      → source.klines r.pair r.interval r.bars ≡ ok klines
      → source.funding r.pair ≡ ok funding
      → IsExtended hashing
          (scan_setup hashing formatting r turns klines funding)
          0
          (strategies_of hashing formatting r)
          []
          st
          st'
      → ScanQueues hashing formatting source r turns st st'

-- A scan leaves the approvals as they were if the venue does not answer. Otherwise it appends what its turns
-- queue, in their order, up to the first exception of a strategy or of the risk engine: a turn queues at most one
-- approval, that of the signal which its strategy gave for the snapshot, and it does so exactly if the risk engine
-- approved this signal at the claims of the turns before, the scan is in semi-automatic mode and a user and a store
-- are given. The approval is pending, the user's, under the signal's key, with the signal's prices and the decision's
-- quantity, and its entry has passed every gate of the risk engine.
pub scan_once-IsExtended :
    (hashing : Hashing) (formatting : Formatting) (source : KlineSource) (r : ScanRequest)
    (turns : ℕ → Turn) (st : Store)
    → ScanQueues hashing formatting source r turns st
        (scan_once hashing formatting source r turns st).1
unfolding scan_once scan_snapshot
scan_once-IsExtended hashing formatting source r turns st =
    elim (Result-cases (source.klines r.pair r.interval r.bars)) [
      | inr (e, h) ↦ rw h (no_klines e h refl)
      | inl (klines, h) ↦ elim (Result-cases (source.funding r.pair)) [
        | inr (e, g) ↦ rw (h, g) (no_funding e g refl)
        | inl (funding, g) ↦
            rw (h, g)
              (snapshot_taken klines funding h g (
                scan_strategies-IsExtended hashing
                  (scan_setup hashing formatting r turns klines funding) 0
                  (strategies_of hashing formatting r)
                  (record { idem = []; outcomes = []; store = st })))
      ]
    ]
