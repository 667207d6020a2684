-- ===== src/Examples/RiskExamples.antt =====
-- Examples for the risk engine.
use nexocrypto.Decimal.{abs, add, div, is_zero, le, lt, min, mul, neg, of_ℤ, quotient, sub, to_ℤ}
use nexocrypto.Risk.Ev.{
  ev_net_bps, ev_passes, expected_funding_bps, round_trip_fees_bps, whole_cycles,
}
use nexocrypto.Risk.Sizing.{
  check_caps, margin_bps, misses_min_rr, size_leveraged, size_position, tp_distance,
}
use nexocrypto.Risk.Engine.{
  EntryRequest, after_distance, after_ev, after_guards, after_size, approve_decision,
  authorize_new_entry, claim_and_approve, entry_guards, no_findings, reject_decision, then_check,
}
use nexocrypto.Risk.Guards.{
  check_account_lock, check_cooldowns, check_exposure_caps, check_loss_guards, check_paper_gate,
  check_stale_price, loss_bps,
}
use nexocrypto.Risk.Liquidation.{
  judge_distance, liquidation_distance_bps, liquidation_price, passes_min_distance,
}
use nexocrypto.Risk.Idempotency.{in_memory_store, try_acquire_in_memory}
use nexocrypto.Examples.Data.{request_again, signal, plain_hashing, request, value_or}
use nexocrypto.Shared.{long, semi_auto, TradeDecision, dedup_hash}
use nexocrypto.Risk.Types.{duplicate_signal}
use nexocrypto.Risk.Engine.Approval.{IsAuthorized, authorize-IsAuthorized}
use nexocrypto.Risk.Engine.Once.{serve, approved_once}
use nexocrypto.Execution.{
  OrderRequest, Venue, connector_error, entry_order, open_position, order_request_from_decision,
}
use nexocrypto.Execution.Handover.{shared_store_drops}
use nexocrypto.Prelude.{
  arith, false, ◌∷◌, Dict, Result, [], insert, lookup, negsuc, ok, pos, refl, some, true, ℕ, ◌≡◌,
}

-- What the engine does with the request on an empty store, with all of its code opened.
unfoldable pub outcome : Result (TradeDecision × Dict ℕ)
unfolding authorize_new_entry after_guards after_distance after_size after_ev claim_and_approve
    approve_decision reject_decision entry_guards then_check check_account_lock check_paper_gate
    check_stale_price check_cooldowns check_loss_guards check_exposure_caps loss_bps
    passes_min_distance liquidation_price liquidation_distance_bps judge_distance size_position
    size_leveraged check_caps misses_min_rr tp_distance margin_bps ev_passes ev_net_bps
    expected_funding_bps round_trip_fees_bps whole_cycles div quotient add sub mul neg abs le lt min
    is_zero to_ℤ of_ℤ try_acquire_in_memory lookup insert dedup_hash
outcome = authorize_new_entry plain_hashing in_memory_store request []

unfoldable pub decision : TradeDecision
unfolding outcome
decision =
    (value_or (reject_decision plain_hashing request duplicate_signal no_findings, []) outcome).0

store_left : Dict ℕ
unfolding outcome
store_left =
    (value_or (reject_decision plain_hashing request duplicate_signal no_findings, []) outcome).1

outcome_lem :
    authorize_new_entry plain_hashing in_memory_store request [] ≡ ok (decision, store_left)
unfolding decision store_left
outcome_lem = refl

decision_approved : decision.approved ≡ true
unfolding decision
decision_approved = refl

-- 49.50 at risk over a stop of 2.
decision_qty :
    decision.intended_qty
    ≡ some (record { coeff = pos 2475000000000000000000000000; exp = negsuc 25 })
unfolding decision
decision_qty = refl

authorize-IsAuthorized_example :
    IsAuthorized plain_hashing in_memory_store request [] decision store_left
authorize-IsAuthorized_example =
    authorize-IsAuthorized plain_hashing in_memory_store request [] decision store_left outcome_lem
      decision_approved

-- The same signal ten seconds later, on the store that the first call left.
second : TradeDecision × Dict ℕ
unfolding outcome store_left
second =
    value_or (decision, [])
      (authorize_new_entry plain_hashing in_memory_store request_again store_left)

-- Another signal comes in between.
abbrev between : EntryRequest
between = record request { signal = record signal { dedup_hash = "k2" }; clock = 9000000 }

third : TradeDecision × Dict ℕ
unfolding outcome store_left serve
third =
    value_or (decision, [])
      (authorize_new_entry plain_hashing in_memory_store request_again
        (serve plain_hashing in_memory_store (between ∷ []) store_left))

third_lem :
    authorize_new_entry plain_hashing in_memory_store request_again
      (serve plain_hashing in_memory_store (between ∷ []) store_left)
    ≡ ok (third.0, third.1)
unfolding third
third_lem = refl

approved_once_example : (third.0).approved ≡ false
approved_once_example =
    approved_once plain_hashing in_memory_store request request_again (between ∷ []) [] decision
      third.0 store_left third.1 outcome_lem decision_approved (omega arith, tt) refl (omega arith)
      third_lem

-- The order of the approved decision, on the store that approved it.
abbrev decided_order : OrderRequest
decided_order =
    entry_order decision "BTCUSDT" long
      (record { coeff = pos 2475000000000000000000000000; exp = negsuc 25 })

abbrev down_venue : Venue
down_venue req = connector_error "timeout"

decided_order_lem : order_request_from_decision decision "BTCUSDT" long ≡ ok decided_order
unfolding decision order_request_from_decision
decided_order_lem = refl

shared_store_drops_example :
    (open_position in_memory_store down_venue 20000000 semi_auto decided_order store_left).sent ≡ []
shared_store_drops_example =
    shared_store_drops plain_hashing in_memory_store down_venue request [] store_left decision
      "BTCUSDT" long decided_order 20000000 semi_auto outcome_lem decided_order_lem (omega arith)
