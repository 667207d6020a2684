-- ===== src/Api/Approvals.antt =====
-- store.py: the queue of semi-automatic approvals.
pub mod Resolution
pub mod Refinement
use nexocrypto.Prelude.{
  map_option, Bool, List, Option, String, [], if◌then◌else◌, none, some, str_eq, ◌&&◌, ◌++◌, ◌+◌,
  ◌==◌, ◌∷◌,
}
use nexocrypto.Shared.{Signal, TradeDecision, Uuid}
use nexocrypto.Decimal.{Decimal, is_zero}
use nexocrypto.Api.State.{Approval, Store}

-- `x if x else None`: a decimal 0 counts as absent.
abbrev pub unless_zero : Option Decimal → Option Decimal
unless_zero none = none
unless_zero (some d) = if is_zero d then none else some d

abbrev or_else : Option Decimal → Decimal → Option Decimal
or_else none d = some d
or_else (some e) d = some e

unfoldable pub add_approval : Uuid → Signal → TradeDecision → Store → Approval × Store
add_approval user signal d st =
    let approval : Approval = record {
      id = st.next_uuid;
      user_id = user;
      status = "pending";
      resolution_reason = none;
      signal_id = signal.id;
      pair = signal.pair;
      side = signal.side;
      entry = signal.entry;
      stop_loss = signal.stop_loss;
      take_profits = signal.take_profits;
      leverage = or_else (unless_zero d.intended_leverage) signal.leverage;
      qty = unless_zero d.intended_qty;
      ev_net_bps = unless_zero d.ev_net_bps;
      idempotency_key = d.idempotency_key;
    } in
    (
      approval,
      record st { approvals = st.approvals ++ approval ∷ []; next_uuid = st.next_uuid + 1 },
    )

-- `a["id"] == approval_id and a["user_id"] == user_id`
abbrev pub is_approval : Uuid → Uuid → Approval → Bool
is_approval user id a = a.id == id && a.user_id == user

unfoldable pub find_approval : Uuid → Uuid → List Approval → Option Approval
find_approval user id [] = none
find_approval user id (a ∷ rest) =
    if is_approval user id a then some a else find_approval user id rest

unfoldable pub get_approval : Uuid → Uuid → Store → Option Approval
get_approval user id st = find_approval user id st.approvals

-- The row with its new status; an absent or empty reason is not written.
abbrev pub resolved : String → Option String → Approval → Approval
resolved action none a = record a { status = action }
resolved action (some reason) a =
    if str_eq reason ""
    then record a { status = action }
    else record a { status = action; resolution_reason = some reason }

-- The first row that fits is changed in place.
unfoldable pub resolve_rows : Uuid → Uuid → String → Option String → List Approval → List Approval
resolve_rows user id action reason [] = []
resolve_rows user id action reason (a ∷ rest) =
    if is_approval user id a
    then resolved action reason a ∷ rest
    else a ∷ resolve_rows user id action reason rest

unfoldable pub resolve_approval :
    Uuid → Uuid → String → Option String → Store → Option Approval × Store
resolve_approval user id action reason st = (
  map_option (resolved action reason) (find_approval user id st.approvals),
  record st { approvals = resolve_rows user id action reason st.approvals },
)

unfoldable pub pending_of : Uuid → List Approval → List Approval
pending_of user [] = []
pending_of user (a ∷ rest) =
    let others = pending_of user rest in
    if a.user_id == user && str_eq a.status "pending" then a ∷ others else others

unfoldable pub list_approvals : Uuid → Store → List Approval
list_approvals user st = pending_of user st.approvals
