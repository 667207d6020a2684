-- ===== src/Examples/ApiExamples.antt =====
-- Examples for the API: user 1 trades live, user 2 has nothing.
use nexocrypto.Api.Coordinator.Safety.{handle_approval_sends, live_approval_sends, IsLive}
use nexocrypto.Api.Coordinator.Records.{
  handle_approval-Audited, live_approval-Settled, Audited, Settled, is_executed,
}
use nexocrypto.Api.Routes.Approve.{tells_executed, second_approve_conflicts}
use nexocrypto.Api.Modes.Gate.{put_mode-IsGated, IsGated, empty_store-IsGated}
use nexocrypto.Api.Approvals.Resolution.{list_approvals-resolve_approval}
use nexocrypto.Api.Tenants.Provisioning.{provision_tenant_twice}
use nexocrypto.Api.Connections.Isolation.{IsConnected, add_exchange_connection-IsConnected}
use nexocrypto.Api.Tenants.{provision_tenant}
use nexocrypto.Api.Routes.{serve_approve, post_approval_decision, put_mode, refuse}
use nexocrypto.Prelude.{
  raised, runtime_error, insert, Result, [], false, lookup, none, ok, refl, some, true, ◌∷◌, ◌≡◌,
  ◌⊎◌,
}
use nexocrypto.Shared.{long, semi_auto}
use nexocrypto.Api.Approvals.{find_approval, get_approval, list_approvals, resolve_approval}
use nexocrypto.Execution.{
  claim_and_send, open_position, report, report_reply, send, OrderRequest, Venue, VenueReply,
  accepted,
}
use nexocrypto.Api.Coordinator.{
  carry_out, record_placed, with_connection, with_connector, with_qty, approval_order,
  handle_approval_approve, should_execute,
}
use nexocrypto.Api.Connections.{
  add_exchange_connection, find_connection, get_exchange_connection_enc,
}
use nexocrypto.Api.State.{empty_store, Approval, Connection, ModeState, Store, update}
use nexocrypto.Decimal.{le, lt, of_ℕ}
use nexocrypto.Risk.Idempotency.{try_acquire_in_memory, in_memory_store, is_held}
use nexocrypto.Api.Modes.{get_mode}
use nexocrypto.Api.Ledger.{list_audit_logs}

abbrev approval : Approval
approval = record {
  id = 10;
  user_id = 1;
  status = "pending";
  resolution_reason = none;
  signal_id = 7;
  pair = "BTCUSDT";
  side = long;
  entry = of_ℕ 100;
  stop_loss = of_ℕ 98;
  take_profits = of_ℕ 106 ∷ [];
  leverage = some (of_ℕ 5);
  qty = some (of_ℕ 2);
  ev_net_bps = some (of_ℕ 20);
  idempotency_key = "k1";
}

abbrev connection : Connection
connection = record {
  id = 5;
  user_id = 1;
  exchange = "bitunix";
  api_key_enc = "ek";
  api_secret_enc = "es";
  ip_allowlist = none;
  status = "untested";
  last_tested_at = none;
}

abbrev live_mode : ModeState
live_mode = record {
  mode = semi_auto;
  paper_trades_count = 50;
  live_unlocked = true;
  account_protection_lock = false;
}

abbrev live_store : Store
live_store = record empty_store {
  approvals = approval ∷ [];
  connections = connection ∷ [];
  modes = update empty_store.modes 1 (some live_mode);
  next_uuid = 20;
}

abbrev accepting : OrderRequest → VenueReply
accepting req = accepted (record {
  exchange_order_id = "x1";
  client_id = req.idempotency_key;
  status = "NEW";
  submitted_at = 0;
})

abbrev factory : Connection → Result Venue
factory c = ok accepting

live_lem : should_execute (get_mode 1 live_store) ≡ true
unfolding should_execute get_mode
live_lem = refl

handle_approval_sends_example :
    let h = handle_approval_approve in_memory_store factory 5000000 1 approval live_store [] in
    (h.sent ≡ [])
    ⊎ ((req : OrderRequest) × (h.sent ≡ req ∷ [])
        × IsLive in_memory_store factory 5000000 1 approval live_store [] req)
handle_approval_sends_example =
    handle_approval_sends in_memory_store factory 5000000 1 approval live_store []

live_approval_sends_example :
    let h = handle_approval_approve in_memory_store factory 5000000 1 approval live_store [] in
    (h.sent ≡ approval_order approval (of_ℕ 2) ∷ []) × (is_executed h.reply ≡ true)
unfolding should_execute get_mode get_exchange_connection_enc find_connection lt le is_held lookup
live_approval_sends_example =
    live_approval_sends in_memory_store factory 5000000 1 approval live_store [] connection (of_ℕ 2)
      accepting refl refl refl refl refl refl

handle_approval-Audited_example :
    let h = handle_approval_approve in_memory_store factory 5000000 1 approval live_store [] in
    Audited 1 approval live_store h.reply h.api
handle_approval-Audited_example =
    handle_approval-Audited in_memory_store factory 5000000 1 approval live_store []

live_approval-Settled_example :
    let h = handle_approval_approve in_memory_store factory 5000000 1 approval live_store [] in
    Settled 1 approval live_store h.reply h.api
live_approval-Settled_example =
    live_approval-Settled in_memory_store factory 5000000 1 approval live_store [] live_lem

-- The first click of the example: all of the code opened.
first_executed :
    tells_executed
      (post_approval_decision in_memory_store factory 5000000 1 10 "approve" none live_store
        []).response
    ≡ true
unfolding post_approval_decision serve_approve get_approval find_approval handle_approval_approve
    should_execute get_mode get_exchange_connection_enc find_connection with_connection with_qty
    with_connector carry_out open_position claim_and_send try_acquire_in_memory lookup insert send
    report report_reply le record_placed approval_order
first_executed = refl

second_approve_conflicts_example :
    let first =
      post_approval_decision in_memory_store factory 5000000 1 10 "approve" none live_store [] in
    post_approval_decision in_memory_store factory 90000000 1 10 "approve" none first.api
      first.state
    ≡ refuse in_memory_store factory 409 first.api first.state
second_approve_conflicts_example =
    second_approve_conflicts in_memory_store factory 5000000 90000000 1 10 none none live_store []
      first_executed

put_mode-IsGated_example : IsGated (put_mode 1 semi_auto empty_store).1
put_mode-IsGated_example = put_mode-IsGated 1 semi_auto empty_store empty_store-IsGated

list_approvals-resolve_approval_example :
    list_approvals 2 (resolve_approval 1 10 "approve" none live_store).1
    ≡ list_approvals 2 live_store
list_approvals-resolve_approval_example =
    list_approvals-resolve_approval 1 10 2 "approve" none live_store (λ e. cc e)

-- User 1 has a connection to the venue already, with the secrets "ek" and "es".
add_exchange_connection-IsConnected_example :
    IsConnected 1 "bitunix" "nk" "ns" live_store
      (add_exchange_connection 1 "bitunix" "nk" "ns" none live_store)
add_exchange_connection-IsConnected_example =
    add_exchange_connection-IsConnected 1 "bitunix" "nk" "ns" none live_store

-- The executor keeps the earlier one.
earlier_stays :
    get_exchange_connection_enc 1 "bitunix"
      (add_exchange_connection 1 "bitunix" "nk" "ns" none live_store).1
    ≡ some connection
unfolding get_exchange_connection_enc find_connection add_exchange_connection
earlier_stays = refl

provision_tenant_twice_example :
    let first = provision_tenant "nexo-1" "a@b.c" none "pro" "t1" live_store in
    provision_tenant "nexo-1" "d@e.f" none "free" "t2" first.1 ≡ ((first.0.0, false), first.1)
provision_tenant_twice_example =
    provision_tenant_twice "nexo-1" "a@b.c" "d@e.f" none none "pro" "free" "t1" "t2" live_store

-- A factory that fails, as one without a vault key does: nothing is sent and no audit row is written.
abbrev failing_factory : Connection → Result Venue
failing_factory c = raised runtime_error

factory_failure :
    let h =
      handle_approval_approve in_memory_store failing_factory 5000000 1 approval live_store [] in
    (h.reply ≡ raised runtime_error) × (h.sent ≡ []) × (list_audit_logs 1 h.api ≡ [])
unfolding handle_approval_approve should_execute get_mode get_exchange_connection_enc
    find_connection with_connection with_qty with_connector le list_audit_logs
factory_failure = (refl, refl, refl)
