-- ===== src/Api/Routes.antt =====
-- services/api/src/nexocrypto_api/routes.py: the handlers that guard the coordinator and the mode. An
-- `HTTPException` is its status code.
pub mod Approve
use nexocrypto.Prelude.{
  Bool, Exception, List, Option, Result, String, [], if◌then◌else◌, none, not, ok, permission_error,
  raised, some, str_eq, ℕ, ◌||◌,
}
use nexocrypto.Risk.Idempotency.{IdempotencyStore}
use nexocrypto.Execution.{OrderRequest, Venue}
use nexocrypto.Api.State.{Approval, Connection, ModeState, Store}
use nexocrypto.Api.Approvals.{get_approval, resolve_approval}
use nexocrypto.Shared.{Mode, Uuid}
use nexocrypto.Api.Modes.{set_mode}
use nexocrypto.Api.Coordinator.{Reply, approval_row, handle_approval_approve}

-- What a request gets: a body, an HTTP error, or an exception that no handler caught.
pub data Response {ℓ} (A : Type ℓ) : Type ℓ where
  body : A → Response A
  http_error : ℕ → Response A
  server_error : Exception → Response A

abbrev pub respond {ℓ} : {A : Type ℓ} → Result A → Response A
respond (ok a) = body a
respond (raised e) = server_error e

-- _ALLOWED_APPROVAL_ACTIONS
abbrev pub is_allowed_action : String → Bool
is_allowed_action action =
    let plain = str_eq action "reject" || (str_eq action "continue" || str_eq action "close") in
    str_eq action "approve" || (plain || (str_eq action "breakeven" || str_eq action "protect"))

pub record Served (State : Type 0) : Type 0 where
  pub sent : List OrderRequest
  pub response : Response Reply
  pub api : Store
  pub state : State

module _ (store : IdempotencyStore) (connector_factory : Connection → Result Venue) where
  open store use {State}

  unfoldable pub refuse : ℕ → Store → State → Served State
  refuse code st s = record { sent = []; response = http_error code; api = st; state = s }

  unfoldable pub serve_approve : ℕ → Uuid → Option Approval → Store → State → Served State
  serve_approve clock user none st s = refuse 404 st s
  serve_approve clock user (some a) st s =
      let h = handle_approval_approve store connector_factory clock user a st s in
      if str_eq a.status "pending"
      then record { sent = h.sent; response = respond h.reply; api = h.api; state = h.state }
      else refuse 409 st s

  unfoldable pub serve_resolved : Option Approval × Store → Store → State → Served State
  serve_resolved (none, st') st s = refuse 404 st s
  serve_resolved (some a, st') st s = record {
    sent = [];
    response = body (approval_row (some a));
    api = st';
    state = s;
  }

  unfoldable pub post_approval_decision :
      ℕ → Uuid → Uuid → String → Option String → Store → State → Served State
  post_approval_decision clock user approval_id action reason st s =
      if not (is_allowed_action action)
      then refuse 400 st s
      else if str_eq action "approve"
      then serve_approve clock user (get_approval user approval_id st) st s
      else serve_resolved (resolve_approval user approval_id action reason st) st s

put_mode_response : Result (ModeState × Store) → Store → Response ModeState × Store
put_mode_response (ok (m, st')) st = (body m, st')
put_mode_response (raised (permission_error e)) st = (http_error 403, st)
put_mode_response (raised e) st = (server_error e, st)

unfoldable pub put_mode : Uuid → Mode → Store → Response ModeState × Store
unfolding put_mode_response
put_mode user mode st = put_mode_response (set_mode user mode st) st
