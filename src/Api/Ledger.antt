-- ===== src/Api/Ledger.antt =====
-- store.py: trades, orders and the audit log of each user.
use nexocrypto.Prelude.{Dict, List, String, ◌+◌}
use nexocrypto.Shared.{Uuid}
use nexocrypto.Api.State.{AuditLog, Detail, Order, Store, Trade, append}

unfoldable pub list_trades : Uuid → Store → List Trade
list_trades user st = st.trades user

unfoldable pub list_audit_logs : Uuid → Store → List AuditLog
list_audit_logs user st = st.audit user

-- `add_trade` on the fields that a caller gives; the id is made here.
unfoldable pub add_trade : Uuid → Trade → Store → Trade × Store
add_trade user fields st =
    let row = record fields { id = st.next_uuid } in
    (row, record st { trades = append st.trades user row; next_uuid = st.next_uuid + 1 })

unfoldable pub add_order : Uuid → Order → Store → Order × Store
add_order user fields st =
    let row = record fields { id = st.next_uuid } in
    (row, record st { orders = append st.orders user row; next_uuid = st.next_uuid + 1 })

unfoldable pub add_audit_log : Uuid → String → String → String → Dict Detail → Store → Store
add_audit_log user actor action reason details st =
    let row : AuditLog = record {
      id = st.next_uuid;
      actor = actor;
      action = action;
      reason = reason;
      details = details;
    } in
    record st { audit = append st.audit user row; next_uuid = st.next_uuid + 1 }
