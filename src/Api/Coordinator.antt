-- ===== src/Api/Coordinator.antt =====
-- services/api/src/nexocrypto_api/execution_coordinator.py: an approved row becomes a live order. The
-- factory of the connectors is an argument, which may raise; `aclose` has no effect that is kept.
pub mod Course
pub mod Safety
pub mod Records
use nexocrypto.Shared.{Mode, Side, Uuid, is_semi_auto, isolated, market, mode_value}
use nexocrypto.Api.State.{Approval, Connection, Detail, text, uuid_text, ModeState, Store}
use nexocrypto.Prelude.{
  Bool, Dict, ◌∷◌, List, Option, Result, String, [], false, head?, if◌then◌else◌, none, not, ok,
  raised, some, true, ℕ, ◌&&◌,
}
use nexocrypto.Api.Ledger.{add_audit_log, add_order, add_trade}
use nexocrypto.Execution.{
  ExecutionReport, ExecutionStatus, OrderRequest, Venue, open_position, placed, status_value,
}
use nexocrypto.Decimal.{Decimal, le, of_ℕ}
use nexocrypto.Api.Modes.{get_mode}
use nexocrypto.Risk.Idempotency.{IdempotencyStore}
use nexocrypto.Api.Approvals.{resolve_approval, unless_zero}
use nexocrypto.Api.Connections.{get_exchange_connection_enc}
use nexocrypto.Risk.Types.{account_protection_lock}
use Prim.Native.String.{◌++◌}

-- What the route returns.
pub data Reply : Type 0 where
  approval_row : Option Approval → Reply
  blocked : String → Uuid → Reply
  executed : ExecutionStatus → Option String → Uuid → Uuid → String → Side → Decimal → Reply
  not_executed : ExecutionStatus → String → Uuid → Reply

-- A call: the orders that reached the venue, the reply or the exception, and both stores after it.
pub record Handled (State : Type 0) : Type 0 where
  pub sent : List OrderRequest
  pub reply : Result Reply
  pub api : Store
  pub state : State

-- `str(b)`
abbrev bool_text : Bool → String
bool_text true = "True"
bool_text false = "False"

unfoldable pub should_execute : ModeState → Bool
should_execute m = is_semi_auto m.mode && (m.live_unlocked && not m.account_protection_lock)

unfoldable pub no_exec_reason : ModeState → String
no_exec_reason m =
    "no live execution: mode="
    ++ (mode_value m.mode
        ++ (" live_unlocked="
            ++ (bool_text m.live_unlocked ++ (" locked=" ++ bool_text m.account_protection_lock))))

unfoldable pub approval_order : Approval → Decimal → OrderRequest
approval_order a qty = record {
  pair = a.pair;
  side = a.side;
  order_type = market;
  qty = qty;
  price = none;
  reduce_only = false;
  margin_type = isolated;
  leverage = a.leverage;
  idempotency_key = a.idempotency_key;
  take_profit_price = head? a.take_profits;
  stop_loss_price = some a.stop_loss;
}

-- The rows that a placed order leaves: a trade, an order, the resolved approval and an audit row.
unfoldable pub record_placed :
    Uuid → Mode → Approval → OrderRequest → ExecutionReport → Store → Reply × Store
record_placed user mode a req r st =
    let (trade, st1) =
      add_trade user
        (record {
          id = 0;
          exchange = "bitunix";
          pair = req.pair;
          side = a.side;
          strategy = none;
          mode = mode;
          entry_price = unless_zero (some a.entry);
          qty = req.qty;
          leverage = req.leverage;
          status = "open";
        })
        st in
    let (order, st2) =
      add_order user
        (record {
          id = 0;
          trade_id = trade.id;
          exchange_order_id = r.exchange_order_id;
          order_type = "market";
          side = a.side;
          price = none;
          qty = req.qty;
          reduce_only = false;
          status = status_value r.status;
          idempotency_key = r.idempotency_key;
        })
        st1 in
    let (_, st3) = resolve_approval user a.id "approve" none st2 in
    (
      executed r.status r.exchange_order_id trade.id order.id req.pair a.side req.qty,
      add_audit_log user "execution_engine" "open_order" r.reason
          (("approval_id", uuid_text a.id)
            ∷ ("exchange_order_id", text r.exchange_order_id)
            ∷ ("idempotency_key", text (some r.idempotency_key))
            ∷ ("trade_id", uuid_text trade.id)
            ∷ [])
          st3,
    )

abbrev pub failure_details : Approval → ExecutionReport → Dict Detail
failure_details a r =
    ("approval_id", uuid_text a.id)
    ∷ ("status", text (some (status_value r.status)))
    ∷ ("idempotency_key", text (some r.idempotency_key))
    ∷ []

-- Failed, duplicate or rejected: an audit row, and the approval stays pending.
unfoldable pub record_not_placed : Uuid → Approval → ExecutionReport → Store → Reply × Store
record_not_placed user a r st = (
  not_executed r.status r.reason a.id,
  add_audit_log user "execution_engine" "open_order_failed" r.reason (failure_details a r) st,
)

-- The details of an audit row that names the approval only.
abbrev pub for_approval : Approval → Dict Detail
for_approval a = ("approval_id", uuid_text a.id) ∷ []

module _ (store : IdempotencyStore) (connector_factory : Connection → Result Venue) where
  open store use {State}

  unfoldable pub block : Uuid → Approval → String → Store → State → Handled State
  block user a reason st s = record {
    sent = [];
    reply = ok (blocked reason a.id);
    api = add_audit_log user "execution_engine" "open_order_blocked" reason (for_approval a) st;
    state = s;
  }

  unfoldable pub no_exec : Uuid → Approval → ModeState → Store → State → Handled State
  no_exec user a m st s =
      let (row, st') = resolve_approval user a.id "approve" none st in
      record {
        sent = [];
        reply = ok (approval_row row);
        api =
            add_audit_log user "human" "approval_approved_no_exec" (no_exec_reason m)
              (for_approval a) st';
        state = s;
      }

  unfoldable pub carry_out :
      ℕ → Uuid → Mode → Approval → OrderRequest → Venue → Store → State → Handled State
  carry_out clock user mode a req venue st s =
      let x = open_position store venue clock mode req s in
      let (reply, st') =
        if placed x.outcome
        then record_placed user mode a req x.outcome st
        else record_not_placed user a x.outcome st in
      record { sent = x.sent; reply = ok reply; api = st'; state = x.state }

  -- An exception of the factory leaves the call before anything is written.
  unfoldable pub with_connector :
      ℕ → Uuid → Mode → Approval → OrderRequest → Result Venue → Store → State → Handled State
  with_connector clock user mode a req (raised e) st s = record {
    sent = [];
    reply = raised e;
    api = st;
    state = s;
  }
  with_connector clock user mode a req (ok venue) st s = carry_out clock user mode a req venue st s

  unfoldable pub with_qty :
      ℕ → Uuid → Mode → Approval → Connection → Option Decimal → Store → State → Handled State
  with_qty clock user mode a c none st s = block user a "approval_missing_qty" st s
  with_qty clock user mode a c (some qty) st s =
      if le qty (of_ℕ 0)
      then block user a "approval_missing_qty" st s
      else with_connector clock user mode a (approval_order a qty) (connector_factory c) st s

  unfoldable pub with_connection :
      ℕ → Uuid → Mode → Approval → Option Connection → Store → State → Handled State
  with_connection clock user mode a none st s = block user a "no_bitunix_connection" st s
  with_connection clock user mode a (some c) st s = with_qty clock user mode a c a.qty st s

  unfoldable pub handle_approval_approve : ℕ → Uuid → Approval → Store → State → Handled State
  handle_approval_approve clock user a st s =
      let m = get_mode user st in
      let c = get_exchange_connection_enc user "bitunix" st in
      if should_execute m then with_connection clock user m.mode a c st s else no_exec user a m st s
