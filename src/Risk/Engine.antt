-- ===== src/Risk/Engine.antt =====
-- services/engine/src/nexocrypto_engine/risk/engine.py: `RiskEngine.authorize_new_entry`, the final
-- authority on every entry. Its gates stand in the order of the source, the claim of the
-- deduplication key last.
pub mod Guarded
pub mod Approval
pub mod Refusal
pub mod Once
pub mod Completeness
pub mod Exactly
use nexocrypto.Prelude.{
  Bool, ℕ, true, false, [], ◌∷◌, Option, none, some, if◌then◌else◌, Result, ok, ◌>>=◌,
}
use nexocrypto.Decimal.{Decimal, of_ℕ, min}
use nexocrypto.Shared.{
  Mode, market, Signal, RiskProfile, TradeDecision, Datetime, Hashing, dedup_hash,
}
use nexocrypto.Risk.Types.{
  RejectReason, reason_value, is_ok, reason_ok, AccountState, StrategyStats, liquidation_too_close,
  duplicate_signal,
}
use nexocrypto.Risk.Guards.{
  check_account_lock, check_paper_gate, check_stale_price, check_cooldowns, check_loss_guards,
  check_exposure_caps,
}
use nexocrypto.Risk.Liquidation.{passes_min_distance, default_maintenance_margin_rate}
use nexocrypto.Risk.Sizing.{SizeIntent, approved, size_position}
use nexocrypto.Risk.Ev.{EvVerdict, EvInputs, ev_passes, round_trip_fees_bps}
use nexocrypto.Risk.Idempotency.{IdempotencyStore}

-- IDEMPOTENCY_TTL_SECONDS
abbrev pub idempotency_ttl_seconds : ℕ
idempotency_ttl_seconds = 60

-- The arguments of one call, less the store. `clock` is the reading of `time.monotonic()` at which
-- the store is asked.
pub record EntryRequest : Type 0 where
  pub signal : Signal
  pub account : AccountState
  pub risk_profile : RiskProfile
  pub ev_inputs : EvInputs
  pub strategy_stats : Option StrategyStats
  pub mode : Mode
  pub now : Datetime
  pub clock : ℕ

-- What the gates have computed so far, for the record of a rejection.
pub record Findings : Type 0 where
  pub ev_net_bps : Option Decimal
  pub liquidation_price : Option Decimal
  pub liquidation_distance_bps : Option Decimal

abbrev pub no_findings : Findings
no_findings = record {
  ev_net_bps = none;
  liquidation_price = none;
  liquidation_distance_bps = none;
}

-- A guard's reason ends the checks, unless it is `reason_ok`.
unfoldable pub then_check : RejectReason → Result RejectReason → Result RejectReason
then_check reason rest = if is_ok reason then rest else ok reason

-- Steps 1 to 6: the first guard that rejects, or `reason_ok`.
unfoldable pub entry_guards : EntryRequest → Result RejectReason
entry_guards r = then_check (check_account_lock r.account) (
    then_check (check_paper_gate r.account r.mode) (
      then_check (check_stale_price r.account r.now r.risk_profile.stale_price_max_seconds) (
        then_check (check_cooldowns r.account r.risk_profile r.now) (do
          loss ← check_loss_guards r.account r.risk_profile
          then_check loss (ok (check_exposure_caps r.account r.risk_profile))))))

-- The leverage of step 7.
abbrev pub capped_leverage : EntryRequest → Decimal
capped_leverage r = min r.signal.leverage r.risk_profile.max_leverage

module _ (hashing : Hashing) where
  -- `_reject`
  unfoldable pub reject_decision : EntryRequest → RejectReason → Findings → TradeDecision
  reject_decision r reason f = record {
    signal_id = r.signal.id;
    mode = r.mode;
    approved = false;
    reason = reason_value reason;
    intended_order_type = none;
    intended_qty = none;
    intended_entry = none;
    intended_stop_loss = none;
    intended_take_profits = [];
    intended_leverage = none;
    ev_net_bps = f.ev_net_bps;
    liquidation_price = f.liquidation_price;
    liquidation_distance_bps = f.liquidation_distance_bps;
    fees_round_trip_bps = none;
    idempotency_key = dedup_hash hashing (r.signal.dedup_hash ∷ reason_value reason ∷ []);
    decided_at = r.now;
    actor = "risk_engine";
  }

-- The decision that approves.
unfoldable pub approve_decision : EntryRequest → SizeIntent → Findings → TradeDecision
approve_decision r size f = record {
  signal_id = r.signal.id;
  mode = r.mode;
  approved = true;
  reason = reason_value reason_ok;
  intended_order_type = some market;
  intended_qty = some size.qty;
  intended_entry = some r.signal.entry;
  intended_stop_loss = some r.signal.stop_loss;
  intended_take_profits = r.signal.take_profits;
  intended_leverage = some size.leverage;
  ev_net_bps = f.ev_net_bps;
  liquidation_price = f.liquidation_price;
  liquidation_distance_bps = f.liquidation_distance_bps;
  fees_round_trip_bps = some (round_trip_fees_bps r.ev_inputs);
  idempotency_key = r.signal.dedup_hash;
  decided_at = r.now;
  actor = "risk_engine";
}

module _ (hashing : Hashing) (store : IdempotencyStore) where
  open store use {State, try_acquire}

  -- Step 10 and the approval.
  unfoldable pub claim_and_approve :
      EntryRequest → SizeIntent → Findings → State → TradeDecision × State
  claim_and_approve r size f s =
      let (acquired, s') = try_acquire r.clock r.signal.dedup_hash idempotency_ttl_seconds s in
      if acquired
      then (approve_decision r size f, s')
      else (reject_decision hashing r duplicate_signal no_findings, s')

  -- After the expected value of step 9.
  unfoldable pub after_ev :
      EntryRequest → State → SizeIntent → Findings → EvVerdict → TradeDecision × State
  after_ev r s size at_liq (ev_ok, ev_reason, ev_bps) =
      let at_ev = record at_liq { ev_net_bps = ev_bps } in
      if ev_ok
      then claim_and_approve r size at_ev s
      else (reject_decision hashing r ev_reason at_ev, s)

  -- After the size of step 8.
  unfoldable pub after_size :
      EntryRequest → State → Findings → SizeIntent → Result (TradeDecision × State)
  after_size r s at_liq size =
      if approved size
      then (do
        verdict ←
            ev_passes r.strategy_stats r.ev_inputs r.mode
              r.risk_profile.min_expected_profit_after_fees_bps
        ok (after_ev r s size at_liq verdict))
      else ok (reject_decision hashing r size.reject at_liq, s)

  -- After the liquidation distance of step 7.
  unfoldable pub after_distance :
      EntryRequest → State → Bool × Option Decimal × Option Decimal → Result (TradeDecision × State)
  after_distance r s (liq_ok, liq_price, liq_dist) =
      let at_liq = record no_findings {
        liquidation_price = liq_price;
        liquidation_distance_bps = liq_dist;
      } in
      if liq_ok
      then size_position r.signal r.account r.risk_profile (of_ℕ 0) >>= after_size r s at_liq
      else ok (reject_decision hashing r liquidation_too_close at_liq, s)

  -- After the guards of steps 1 to 6.
  unfoldable pub after_guards : EntryRequest → State → RejectReason → Result (TradeDecision × State)
  after_guards r s reason =
      if is_ok reason
      then (passes_min_distance r.signal.side r.signal.entry (capped_leverage r)
            r.risk_profile.min_liquidation_distance_bps default_maintenance_margin_rate
          >>= after_distance r s)
      else ok (reject_decision hashing r reason no_findings, s)

  unfoldable pub authorize_new_entry : EntryRequest → State → Result (TradeDecision × State)
  authorize_new_entry r s = entry_guards r >>= after_guards r s
