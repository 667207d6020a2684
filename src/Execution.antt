-- ===== src/Execution.antt =====
-- services/engine/src/nexocrypto_engine/execution/executor.py: an approved decision becomes a venue
-- order. The venue is an argument: what one call of `place_order` did, which is a result or an
-- exception. The order that is sent is part of the outcome, so that what reaches the venue is seen.
pub mod Safety
pub mod Once
pub mod Handover
use Prim.Native.String.{◌++◌}
use nexocrypto.Prelude.{
  Bool, List, Option, Result, String, [], false, head?, if◌then◌else◌, none, not, ok, raised, some,
  str_eq, true, value_error, ℕ, ◌∷◌,
}
use nexocrypto.Risk.Idempotency.{IdempotencyStore}
use nexocrypto.Decimal.{Decimal, le, of_ℕ}
use nexocrypto.Risk.Sizing.{approved}
use nexocrypto.Shared.{
  Datetime, Hashing, MarginType, Mode, OrderType, Side, TradeDecision, dedup_hash, full_auto,
  is_semi_auto, isolated, long, market, mode_value, reduce_only_market, short, side_value,
}

-- connectors/src/nexocrypto_connectors/base.py: OrderRequest and OrderResult
pub record OrderRequest : Type 0 where
  pub pair : String
  pub side : Side
  pub order_type : OrderType
  pub qty : Decimal
  pub price : Option Decimal
  pub reduce_only : Bool
  pub margin_type : MarginType
  pub leverage : Option Decimal
  pub idempotency_key : String
  pub take_profit_price : Option Decimal
  pub stop_loss_price : Option Decimal

pub record OrderResult : Type 0 where
  pub exchange_order_id : String
  pub client_id : String
  pub status : String
  pub submitted_at : Datetime

-- How `place_order` ends: a result, a ConnectorError or another exception, with its text.
pub data VenueReply : Type 0 where
  accepted : OrderResult → VenueReply
  connector_error : String → VenueReply
  unexpected_error : String → VenueReply

abbrev pub Venue : Type 0
Venue = OrderRequest → VenueReply

pub data ExecutionStatus : Type 0 where
  filled failed duplicate rejected : ExecutionStatus

-- `status.value`
abbrev pub status_value : ExecutionStatus → String
status_value filled = "filled"
status_value failed = "failed"
status_value duplicate = "duplicate"
status_value rejected = "rejected"

-- The quantity is the number; the source keeps its text, without trailing zeros.
pub record ExecutionReport : Type 0 where
  pub status : ExecutionStatus
  pub pair : String
  pub side : Side
  pub qty : Decimal
  pub order_type : OrderType
  pub reduce_only : Bool
  pub idempotency_key : String
  pub reason : String
  pub exchange_order_id : Option String
  pub client_id : Option String
  pub submitted_at : Option Datetime

-- The property `placed`.
abbrev pub placed : ExecutionReport → Bool
placed r = elim r.status [ filled ↦ true | _ ↦ false ]

-- `_report` with no venue fields.
unfoldable pub report : OrderRequest → ExecutionStatus → String → ExecutionReport
report req status reason = record {
  status = status;
  pair = req.pair;
  side = req.side;
  qty = req.qty;
  order_type = req.order_type;
  reduce_only = req.reduce_only;
  idempotency_key = req.idempotency_key;
  reason = reason;
  exchange_order_id = none;
  client_id = none;
  submitted_at = none;
}

-- EXECUTION_IDEMPOTENCY_TTL_SECONDS
abbrev pub execution_ttl_seconds : ℕ
execution_ttl_seconds = 60

-- The order of a decision that carries the quantity `qty`.
unfoldable pub entry_order : TradeDecision → String → Side → Decimal → OrderRequest
entry_order decision pair side qty = record {
  pair = pair;
  side = side;
  order_type = elim decision.intended_order_type [ none ↦ market | some t ↦ t ];
  qty = qty;
  price = none;
  reduce_only = false;
  margin_type = isolated;
  leverage = decision.intended_leverage;
  idempotency_key = decision.idempotency_key;
  take_profit_price = head? decision.intended_take_profits;
  stop_loss_price = decision.intended_stop_loss;
}

order_of_qty : TradeDecision → String → Side → Option Decimal → Result OrderRequest
order_of_qty decision pair side none = raised value_error
order_of_qty decision pair side (some qty) =
    if decision.approved then ok (entry_order decision pair side qty) else raised value_error

unfoldable pub order_request_from_decision : TradeDecision → String → Side → Result OrderRequest
unfolding order_of_qty
order_request_from_decision decision pair side =
    order_of_qty decision pair side decision.intended_qty

-- The report of the venue's reply: every exception means that the order is not placed.
unfoldable pub report_reply : OrderRequest → VenueReply → ExecutionReport
report_reply req (accepted result) = record (report req filled "ok") {
  exchange_order_id = some result.exchange_order_id;
  client_id = some result.client_id;
  submitted_at = some result.submitted_at;
}
report_reply req (connector_error e) = report req failed ("connector_error:" ++ e)
report_reply req (unexpected_error e) = report req failed ("unexpected_error:" ++ e)

-- `_send`
unfoldable pub send : Venue → OrderRequest → ExecutionReport
send venue req = report_reply req (venue req)

-- Why a mode may not open a live entry.
unfoldable pub mode_refusal : Mode → String
mode_refusal full_auto = "full_auto_disabled_in_mvp"
mode_refusal mode = "mode_not_executable:" ++ mode_value mode

-- The orders sent to the venue by a call, its report and the store that it leaves.
pub record Execution (State : Type 0) : Type 0 where
  pub sent : List OrderRequest
  pub outcome : ExecutionReport
  pub state : State

module _ (store : IdempotencyStore) (venue : Venue) where
  open store use {State, try_acquire}

  -- A call that ends before the venue is asked.
  unfoldable pub stop : State → OrderRequest → ExecutionStatus → String → Execution State
  stop s req status reason = record { sent = []; outcome = report req status reason; state = s }

  -- The claim of the key, then the venue write.
  unfoldable pub claim_and_send : ℕ → OrderRequest → State → Execution State
  claim_and_send clock req s =
      let (acquired, s') = try_acquire clock req.idempotency_key execution_ttl_seconds s in
      if acquired
      then record { sent = req ∷ []; outcome = send venue req; state = s' }
      else stop s' req duplicate "idempotency_key_already_claimed"

  unfoldable pub open_position : ℕ → Mode → OrderRequest → State → Execution State
  open_position clock mode req s =
      if not (is_semi_auto mode)
      then stop s req rejected (mode_refusal mode)
      else if le req.qty (of_ℕ 0)
      then stop s req rejected "non_positive_qty"
      else claim_and_send clock req s

-- The order that closes a position: the other side, reduce only.
unfoldable pub closing_request : String → Side → Decimal → String → OrderRequest
closing_request pair position_side qty key = record {
  pair = pair;
  side = elim position_side [ long ↦ short | short ↦ long ];
  order_type = reduce_only_market;
  qty = qty;
  price = none;
  reduce_only = true;
  margin_type = isolated;
  leverage = none;
  idempotency_key = key;
  take_profit_price = none;
  stop_loss_price = none;
}

-- `idempotency_key or dedup_hash(...)`: an absent or empty key is replaced.
unfoldable pub closing_key : Option String → String → String
closing_key none made = made
closing_key (some key) made = if str_eq key "" then made else key

module _ (hashing : Hashing) (store : IdempotencyStore) (venue : Venue) where
  open store use {State}

  -- `timestamp` is `ts.isoformat()`, which keys a close that is given no key of its own.
  unfoldable pub close_position :
      ℕ → String → Side → Decimal → Option String → String → State → Execution State
  close_position clock pair position_side qty given_key timestamp s =
      let made = dedup_hash hashing ("close" ∷ pair ∷ side_value position_side ∷ timestamp ∷ []) in
      let key = closing_key given_key made in
      let req = closing_request pair position_side qty key in
      if le qty (of_ℕ 0)
      then stop store venue s req rejected "non_positive_qty"
      else claim_and_send store venue clock req s
