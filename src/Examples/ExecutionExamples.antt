-- ===== src/Examples/ExecutionExamples.antt =====
-- Examples for the executor.
use nexocrypto.Prelude.{
  List, [], arith, false, insert, lookup, none, refl, some, true, ◌∷◌, ◌≡◌, ◌≢◌, ◌⊎◌,
}
use nexocrypto.Risk.Types.{reason_ok}
use nexocrypto.Execution.Once.{Call, closes, opens, perform, run, sent_once}
use nexocrypto.Shared.{TradeDecision, dedup_hash, isolated, long, market, semi_auto, short}
use nexocrypto.Execution.Safety.{
  HeldBack, MayOpen, SentOnce, close_position_sends, close_request, open_position_sends,
  send-placed,
}
use nexocrypto.Execution.Handover.{IsOrderOf, order_request-IsOrderOf}
use nexocrypto.Decimal.{le, lt, of_ℕ}
use nexocrypto.Risk.Engine.{approve_decision, no_findings}
use nexocrypto.Examples.Data.{plain_hashing, request}
use nexocrypto.Risk.Idempotency.{in_memory_store, try_acquire_in_memory}
use nexocrypto.Execution.{
  OrderRequest, Venue, accepted, claim_and_send, close_position, closing_key, closing_request,
  connector_error, entry_order, open_position, order_request_from_decision, placed, report,
  report_reply, send, stop,
}

abbrev order : OrderRequest
order = record {
  pair = "BTCUSDT";
  side = long;
  order_type = market;
  qty = of_ℕ 2;
  price = none;
  reduce_only = false;
  margin_type = isolated;
  leverage = some (of_ℕ 5);
  idempotency_key = "k1";
  take_profit_price = some (of_ℕ 106);
  stop_loss_price = some (of_ℕ 98);
}

-- A venue that accepts every order, and one that is down.
abbrev open_venue : Venue
open_venue req = accepted (record {
  exchange_order_id = "x1";
  client_id = req.idempotency_key;
  status = "NEW";
  submitted_at = 0;
})

abbrev down_venue : Venue
down_venue req = connector_error "timeout"

open_position_sends_example :
    let x = open_position in_memory_store open_venue 5000000 semi_auto order [] in
    (MayOpen in_memory_store open_venue 5000000 semi_auto order []
      × SentOnce in_memory_store open_venue 5000000 order [] x)
    ⊎ ((¬ MayOpen in_memory_store open_venue 5000000 semi_auto order [])
        × HeldBack in_memory_store open_venue [] x)
open_position_sends_example =
    open_position_sends in_memory_store open_venue 5000000 semi_auto order []

send-placed_example :
    (placed (send down_venue order) ≡ false) × ((send down_venue order).exchange_order_id ≡ none)
send-placed_example = send-placed down_venue order

close_position_sends_example :
    let req =
      close_request plain_hashing in_memory_store open_venue "BTCUSDT" long (of_ℕ 2) none "t0" in
    let x =
      close_position plain_hashing in_memory_store open_venue 5000000 "BTCUSDT" long
        (of_ℕ 2)
        none
        "t0"
        [] in
    let may =
      (lt (of_ℕ 0) (of_ℕ 2) ≡ true)
      × (in_memory_store.is_claimed [] req.idempotency_key 5000000 ≡ false) in
    (req.reduce_only ≡ true)
    × (req.side ≢ long)
    × ((may × SentOnce in_memory_store open_venue 5000000 req [] x)
        ⊎ ((¬ may) × HeldBack in_memory_store open_venue [] x))
close_position_sends_example =
    close_position_sends plain_hashing in_memory_store open_venue 5000000 "BTCUSDT" long (of_ℕ 2)
      none "t0" []

first : Call
first = opens 5000000 semi_auto order open_venue

-- The same order, five seconds after a close of another position.
again : Call
again = opens 15000000 semi_auto order open_venue

between : Call
between = closes 10000000 "ETHUSDT" short (of_ℕ 1) (some "c1") "t0" open_venue

-- All of the executor's code opened.
sent_first : List OrderRequest
unfolding first perform open_position claim_and_send try_acquire_in_memory lookup insert stop report
    send report_reply le lt close_position closing_request closing_key dedup_hash
sent_first = (perform plain_hashing in_memory_store first []).sent

sent_first_lem : sent_first ≡ order ∷ []
unfolding sent_first
sent_first_lem = refl

sent_once_example :
    (perform plain_hashing in_memory_store again (
      run plain_hashing in_memory_store
        (between ∷ [])
        (perform plain_hashing in_memory_store first []).state)).sent
    ≡ []
unfolding sent_first again between
sent_once_example =
    sent_once plain_hashing in_memory_store first again (between ∷ []) [] (λ e. cc e)
      (omega arith, tt) refl (omega arith)

approved_decision : TradeDecision
unfolding approve_decision
approved_decision =
    approve_decision request
      (record {
        qty = of_ℕ 2;
        notional = of_ℕ 200;
        leverage = of_ℕ 5;
        margin_required = of_ℕ 40;
        reject = reason_ok;
      })
      no_findings

order_request-IsOrderOf_example :
    IsOrderOf approved_decision "BTCUSDT" long
      (entry_order approved_decision "BTCUSDT" long (of_ℕ 2))
unfolding approved_decision order_request_from_decision
order_request-IsOrderOf_example =
    order_request-IsOrderOf approved_decision "BTCUSDT" long
      (entry_order approved_decision "BTCUSDT" long (of_ℕ 2)) refl
